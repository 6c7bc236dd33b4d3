-- ===== src/Icmp.antt =====
-- The echo request of the network tests: icmpChecksum and icmpPingTest of cmd/asterkube-init/probe_linux.go.
pub mod Checksum
pub mod Echo
mod Samples
use asterkube.Prelude.{
  ℕ, zero, suc, ◌+◌, ◌-◌, ◌*◌, ◌/◌, ◌%◌, Bool, not, ◌||◌, List, [], ◌∷◌, ◌++◌, Option, none, some,
  ◌==◌, ltb, if◌then◌else◌, length, drop, get_or, String,
}
use asterkube.Prelude.Text.{codes}
use asterkube.Prelude.Words.{Bytes, put_u16_be}
use asterkube.Inet.{parse_ip4}

-- The sum of the 16-bit words, the last byte alone where their number is odd, in a uint32.
unfoldable pub sum_words : ℕ → Bytes → ℕ
sum_words sum [] = sum
sum_words sum (a ∷ []) = (sum + a * 256) % 4294967296
sum_words sum (a ∷ b ∷ message) = sum_words ((sum + (a * 256 + b)) % 4294967296) message

-- The loop that adds what is above 16 bits to the rest, for so many rounds at most.
unfoldable pub fold_carry : ℕ → ℕ → Option ℕ
fold_carry zero sum = none
fold_carry (suc fuel) sum =
    let rest = fold_carry fuel (sum % 65536 + sum / 65536) in
    if sum / 65536 == 0 then some sum else rest

abbrev pub complemented : Option ℕ → Option ℕ
complemented none = none
complemented (some sum) = some (65535 - sum)

unfoldable pub icmp_checksum : Bytes → Option ℕ
icmp_checksum message = complemented (fold_carry 3 (sum_words 0 message))

abbrev pub echo_ident : ℕ
echo_ident = 48879

-- The packet with the checksum in it.
unfoldable pub echo_request : ℕ → Bytes
echo_request csum =
    8 ∷ 0 ∷ put_u16_be csum ++ put_u16_be echo_ident ++ put_u16_be 1 ++ codes "asterkube-ping"

-- What the reads of the socket give until the time is over.
pub data EchoRead : Type 0 where
  would_block read_failed : EchoRead
  packet : Bytes → EchoRead

-- The last one of a slice out of range.
pub data PingResult : Type 0 where
  no_socket no_sendto no_recvfrom no_reply : PingResult
  replied : ℕ → ℕ → PingResult
  out_of_range : PingResult

abbrev pub header_length : Bytes → ℕ
header_length buf = get_or buf 0 0 % 16 * 4

-- The echo reply of this program's request.
unfoldable pub is_our_reply : Bytes → Bool
is_our_reply icmp = not (
    ltb (length icmp) 8
    || not (get_or icmp 0 0 == 0)
    || not (get_or icmp 4 0 * 256 + get_or icmp 5 0 == echo_ident))

unfoldable pub await_echo : List EchoRead → PingResult
unfolding is_our_reply
await_echo [] = no_reply
await_echo (would_block ∷ reads) = await_echo reads
await_echo (read_failed ∷ reads) = no_recvfrom
await_echo (packet buf ∷ reads) =
    let rest = await_echo reads in
    if ltb (length buf) 28
    then rest
    else if ltb (length buf) (header_length buf)
    then out_of_range
    else if is_our_reply (drop (header_length buf) buf)
    then replied (get_or buf 8 0) (length buf - header_length buf)
    else rest

-- What the socket does: whether it opens, whether a packet is sent, and the reads.
pub record EchoSocket : Type 0 where
  pub opens : Bool
  pub sends : Bytes → Bytes → Bool
  pub reads : List EchoRead

-- An address that does not parse leaves the zeros of the socket address.
unfoldable pub ping_target : String → Bytes
unfolding parse_ip4
ping_target dst = elim (parse_ip4 dst) [ none ↦ 0 ∷ 0 ∷ 0 ∷ 0 ∷ [] | some v4 ↦ v4 ]

-- None where the checksum's loop has not ended.
unfoldable pub icmp_ping_test : String → EchoSocket → Option PingResult
unfolding icmp_checksum echo_request ping_target await_echo
icmp_ping_test dst s =
    if not s.opens then some no_socket else elim (icmp_checksum (echo_request 0)) [
      | none ↦ none
      | some csum ↦
          some (
            if s.sends (ping_target dst) (echo_request csum) then await_echo s.reads else no_sendto)
    ]
