-- ===== src/Icmp/Echo.antt =====
-- What icmpPingTest of cmd/asterkube-init/probe_linux.go takes for a reply.
use asterkube.Prelude.{
  ℕ, ◌+◌, ◌*◌, ◌%◌, ◌≤◌, true, false, List, [], ◌∷◌, ◌++◌, some, String, ◌≡◌, ◌≢◌, ◌⊎◌, inl, inr,
  refl, ap, ◌∙◌, length, length-append, drop, drop-append_at, get_or, arith, All,
}
use asterkube.Prelude.Words.{Bytes}
use asterkube.Icmp.{
  EchoRead, would_block, read_failed, packet, replied, EchoSocket, header_length, is_our_reply,
  await_echo, ping_target, echo_request, icmp_checksum, icmp_ping_test, fold_carry, sum_words,
}

-- An ICMP message that is no echo reply with the identifier 0xBEEF.
abbrev pub IsForeign : Bytes → Type 0
IsForeign icmp =
    (length icmp ≤ 7) ⊎ (get_or icmp 0 0 ≢ 0) ⊎ (get_or icmp 4 0 * 256 + get_or icmp 5 0 ≢ 48879)

-- A read that the wait goes on after.
abbrev pub Ignored : EchoRead → Type 0
Ignored would_block = Unit
Ignored read_failed = ⊥
Ignored (packet buf) =
    (length buf ≤ 27)
    ⊎ ((header_length buf ≤ length buf) × IsForeign (drop (header_length buf) buf))

IsForeign-is_our_reply : (icmp : Bytes) → IsForeign icmp → is_our_reply icmp ≡ false
unfolding is_our_reply
IsForeign-is_our_reply icmp (inl h) = ground (arith, h)
IsForeign-is_our_reply icmp (inr (inl h)) = ground (arith, h)
IsForeign-is_our_reply icmp (inr (inr h)) = ground (arith, h)

read_on :
    (buf : Bytes) (reads : List EchoRead)
    → Ignored (packet buf)
    → await_echo (packet buf ∷ reads) ≡ await_echo reads
unfolding await_echo
read_on buf reads (inl h) = ground (arith, h)
read_on buf reads (inr (h, f)) =
    ground (arith, h, IsForeign-is_our_reply (drop (header_length buf) buf) f)

await_echo-Ignored :
    (before reads : List EchoRead)
    → All Ignored before
    → await_echo (before ++ reads) ≡ await_echo reads
unfolding await_echo
await_echo-Ignored [] reads i = refl
await_echo-Ignored (would_block ∷ before) reads i = await_echo-Ignored before reads i.1
await_echo-Ignored (read_failed ∷ before) reads i = absurd i.0
await_echo-Ignored (packet buf ∷ before) reads i =
    let rest = await_echo-Ignored before reads i.1 in let here = i.0 in ground (arith, rest, here)

-- An echo reply of any code, checksum and sequence number, behind the header of an IP packet.
abbrev pub reply_message : ℕ → ℕ → ℕ → ℕ → ℕ → Bytes → Bytes
reply_message code c d s t payload = 0 ∷ code ∷ c ∷ d ∷ 190 ∷ 239 ∷ s ∷ t ∷ payload

request_checksum : icmp_checksum (echo_request 0) ≡ some 14186
unfolding icmp_checksum echo_request fold_carry sum_words
request_checksum = refl

module _ (h code c d s t : ℕ) (options payload : Bytes) where
  -- A packet as the raw socket gives it: the header's length stands in its first byte.
  abbrev echo_reply : Bytes
  echo_reply = (h ∷ options) ++ reply_message code c d s t payload

  is_our_reply-reply_message : is_our_reply (reply_message code c d s t payload) ≡ true
  unfolding is_our_reply
  is_our_reply-reply_message = ground arith

  await_echo-echo_reply :
      (after : List EchoRead)
      → h % 16 * 4 ≡ length (h ∷ options)
      → 20 ≤ length (h ∷ options)
      → await_echo (packet echo_reply ∷ after)
        ≡ replied (get_or echo_reply 8 0) (8 + length payload)
  unfolding await_echo
  await_echo-echo_reply after e l =
      let whole = length-append (h ∷ options) (reply_message code c d s t payload) in
      let ours =
        ap is_our_reply
          (drop-append_at (h % 16 * 4) (h ∷ options) (reply_message code c d s t payload) e)
        ∙ is_our_reply-reply_message in
      ground (arith, whole, ours, e, l)

  -- A ping answers with the reply to its request wherever only reads that are no reply of its own come before it:
  -- an IP packet that carries an echo reply with the identifier of this program, from whatever address, with any
  -- sequence number and behind a header with or without options. The request that is sent has the
  -- checksum 14186.
  pub icmp_ping_test-replied :
      (dst : String) (socket : EchoSocket) (before after : List EchoRead)
      → socket.opens ≡ true
      → socket.sends (ping_target dst) (echo_request 14186) ≡ true
      → socket.reads ≡ before ++ packet echo_reply ∷ after
      → All Ignored before
      → h % 16 * 4 ≡ length (h ∷ options)
      → 20 ≤ length (h ∷ options)
      → icmp_ping_test dst socket ≡ some (replied (get_or echo_reply 8 0) (8 + length payload))
  unfolding icmp_ping_test
  icmp_ping_test-replied dst socket before after o n r i e l =
      let found =
        ap await_echo r
        ∙ await_echo-Ignored before (packet echo_reply ∷ after) i
        ∙ await_echo-echo_reply after e l in
      ground (arith, o, n, request_checksum, found)
