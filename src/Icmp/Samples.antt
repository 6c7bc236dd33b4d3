-- ===== src/Icmp/Samples.antt =====
-- The echo request on concrete packets: cmd/asterkube-init/probe_linux.go.
use asterkube.Prelude.{ℕ, true, List, [], ◌∷◌, ◌++◌, some, ◌≡◌, refl, replicate, arith, inl}
use asterkube.Prelude.Words.{Bytes, put_u16_be}
use asterkube.Icmp.{
  EchoRead, would_block, packet, no_reply, replied, EchoSocket, icmp_checksum, fold_carry,
  sum_words, await_echo, icmp_ping_test,
}
use asterkube.Icmp.Checksum.{icmp_checksum_sound}
use asterkube.Icmp.Echo.{icmp_ping_test-replied, reply_message}

-- The carry is added back, and an odd byte counts as the high one.
carried : icmp_checksum (255 ∷ 255 ∷ 255 ∷ 255 ∷ 1 ∷ []) ≡ some 65279
unfolding icmp_checksum fold_carry sum_words
carried = refl

icmp_checksum_sound_example :
    (c : ℕ) × (icmp_checksum (8 ∷ 0 ∷ 0 ∷ 0 ∷ 190 ∷ 239 ∷ 0 ∷ 1 ∷ 97 ∷ []) ≡ some c)
    × (icmp_checksum (8 ∷ 0 ∷ put_u16_be c ++ 190 ∷ 239 ∷ 0 ∷ 1 ∷ 97 ∷ []) ≡ some 0)
icmp_checksum_sound_example =
    icmp_checksum_sound 8 0 (190 ∷ 239 ∷ 0 ∷ 1 ∷ 97 ∷ [])
      (
        omega arith,
        (
          omega arith,
          (omega arith, (omega arith, (omega arith, (omega arith, (omega arith, tt))))),
        ),
      )
      (omega arith)

-- From 10.0.0.9, with the time to live 63.
abbrev ip_options : Bytes
ip_options = replicate 7 0 ++ 63 ∷ 1 ∷ 0 ∷ 0 ∷ 10 ∷ 0 ∷ 0 ∷ 9 ∷ 10 ∷ 0 ∷ 0 ∷ 2 ∷ []

abbrev reply_packet : Bytes
reply_packet = (69 ∷ ip_options) ++ reply_message 0 1 2 0 7 (97 ∷ [])

-- Nothing yet, and a packet without a message.
abbrev earlier : List EchoRead
earlier = would_block ∷ packet (replicate 20 0) ∷ []

abbrev answering : EchoSocket
answering = record {
  opens = true;
  sends = λ to request. true;
  reads = earlier ++ packet reply_packet ∷ [];
}

unanswered : await_echo earlier ≡ no_reply
unfolding await_echo
unanswered = refl

icmp_ping_test-replied_example : icmp_ping_test "10.0.0.1" answering ≡ some (replied 63 9)
icmp_ping_test-replied_example =
    icmp_ping_test-replied 69 0 1 2 0 7 ip_options (97 ∷ []) "10.0.0.1" answering earlier [] refl
      refl refl (tt, (inl (omega arith), tt)) refl (omega arith)
