-- ===== src/Netlink/Message.antt =====
-- Netlink messages: the frame that `nlSocket.send` of cmd/asterkube-init/netlink_linux.go builds,
-- the Go library's `syscall.ParseNetlinkMessage` that takes a datagram apart, and the receive
-- loops, which read datagrams until one message settles the answer.
pub mod Framing
pub mod Waiting
use asterkube.Prelude.{
  ℕ, zero, suc, ◌+◌, ◌-◌, ◌%◌, ◌^◌, ◌||◌, List, [], ◌∷◌, ◌++◌, Option, none, some, ltb, ◌==◌,
  if◌then◌else◌, length, drop, take, replicate, get_or,
}
use asterkube.Prelude.Words.{Bytes, put_u16, put_u32, u16, u32}
use asterkube.Netlink.Attr.{nl_align, Parsed, parsed, invalid, panicked, no_fuel, map_parsed}

abbrev pub nlmsg_hdr_len : ℕ
nlmsg_hdr_len = 16

-- Message types of the kernel's interface.
abbrev pub nlmsg_error : ℕ
nlmsg_error = 2

abbrev pub nlmsg_done : ℕ
nlmsg_done = 3

abbrev pub rtm_newlink : ℕ
rtm_newlink = 16

abbrev pub rtm_getlink : ℕ
rtm_getlink = 18

abbrev pub rtm_newaddr : ℕ
rtm_newaddr = 20

abbrev pub rtm_newroute : ℕ
rtm_newroute = 24

abbrev pub rtm_getroute : ℕ
rtm_getroute = 26

-- `spare` is what lies behind the body in the receive buffer: Go lets a slice expression such
-- as `m.Data[0:4]` reach into it.
pub record NlMessage : Type 0 where
  pub msg_type : ℕ
  pub flags : ℕ
  pub seq : ℕ
  pub pid : ℕ
  pub body : Bytes
  pub spare : Bytes

-- The bytes that `send` transmits.
unfoldable pub frame : ℕ → ℕ → ℕ → ℕ → Bytes → Bytes
frame msg_type flags seq pid body =
    put_u32 (nlmsg_hdr_len + length body)
    ++ (put_u16 msg_type ++ (put_u16 flags ++ (put_u32 seq ++ (put_u32 pid ++ body))))

-- The words of a header, at fixed offsets.
abbrev pub word_at : ℕ → Bytes → ℕ
word_at i b =
    u32 (get_or b i 0) (get_or b (suc i) 0) (get_or b (suc (suc i)) 0)
      (get_or b (suc (suc (suc i))) 0)

abbrev pub half_at : ℕ → Bytes → ℕ
half_at i b = u16 (get_or b i 0) (get_or b (suc i) 0)

-- `b` is what is left of the datagram, and `rest` the buffer behind the datagram.
unfoldable pub message_of : Bytes → Bytes → NlMessage
message_of b rest = record {
  msg_type = half_at 4 b;
  flags = half_at 6 b;
  seq = word_at 8 b;
  pid = word_at 12 b;
  body = take (word_at 0 b - 16) (drop 16 b);
  spare = drop (word_at 0 b - 16) (drop 16 b) ++ rest;
}

-- `syscall.ParseNetlinkMessage`. Each message takes sixteen bytes at least.
unfoldable pub parse_messages : ℕ → Bytes → Bytes → Parsed (List NlMessage)
parse_messages zero b rest = if ltb (length b) 16 then parsed [] else no_fuel
parse_messages (suc fuel) b rest =
    let m = message_of b rest in
    let more = parse_messages fuel (drop (nl_align (word_at 0 b)) b) rest in
    if ltb (length b) 16
    then parsed []
    else if ltb (word_at 0 b) 16 || ltb (length b) (nl_align (word_at 0 b))
    then invalid
    else map_parsed (λ (ms : List NlMessage). m ∷ ms) more

-- `Recvfrom(fd, buf, 0)` with a fresh buffer of `cap` bytes, and the parse of `buf[:n]`: what is
-- longer than the buffer is cut off, and what is shorter leaves zeros behind it.
unfoldable pub parse_datagram : ℕ → Bytes → Parsed (List NlMessage)
parse_datagram cap d =
    parse_messages (length (take cap d)) (take cap d) (replicate (cap - length (take cap d)) 0)

-- One call of Recvfrom.
pub data Recv : Type 0 where
  recv_failed : ℕ → Recv
  received : Bytes → Recv

-- What a netlink exchange comes to. `blocked` is a receive loop that still waits when the
-- datagrams end.
pub data NlResult {ℓ} (A : Type ℓ) : Type ℓ where
  ok : A → NlResult A
  syscall_failed : ℕ → NlResult A
  netlink_error : ℕ → NlResult A
  bad_message not_ipv4 not_found index_panic blocked : NlResult A

-- The first message on which `decide` answers.
abbrev pub first_answer {ℓ} : {A : Type ℓ} → (NlMessage → Option A) → List NlMessage → Option A
first_answer decide [] = none
first_answer decide (m ∷ ms) = elim (decide m) [ some a ↦ some a | none ↦ first_answer decide ms ]

abbrev pub answer_or {ℓ} : {A : Type ℓ} → Option A → A → A
answer_or none d = d
answer_or (some a) d = a

-- The `for` loop around Recvfrom that recvAck and the three dumps share.
unfoldable pub recv_loop {ℓ} :
    {A : Type ℓ} → ℕ → (NlMessage → Option (NlResult A)) → List Recv → NlResult A
recv_loop cap decide [] = blocked
recv_loop cap decide (recv_failed e ∷ more) = syscall_failed e
recv_loop cap decide (received d ∷ more) =
    let again = recv_loop cap decide more in
    elim (parse_datagram cap d) [
      | parsed ms ↦ answer_or (first_answer decide ms) again
      | invalid ↦ bad_message
      | panicked ↦ index_panic
      | no_fuel ↦ blocked
    ]

-- `syscall.Errno(-errno)` for `errno := int32(w)`: the negated 32-bit value, sign-extended.
unfoldable pub errno_of : ℕ → ℕ
errno_of w = let n = (2 ^ 32 - w) % 2 ^ 32 in if ltb n (2 ^ 31) then n else 2 ^ 64 - 2 ^ 32 + n

-- `m.Data[0:4]` is in range while the buffer has four bytes from there on.
abbrev pub data_word {ℓ} : {A : Type ℓ} → NlMessage → (ℕ → NlResult A) → NlResult A
data_word m k =
    if ltb (length (m.body ++ m.spare)) 4 then index_panic else k (word_at 0 (m.body ++ m.spare))

abbrev pub errno_result : ℕ → NlResult (Unit {0})
errno_result w = if w == 0 then ok tt else netlink_error (errno_of w)

-- The switch of recvAck, on one message.
unfoldable pub ack_of : ℕ → NlMessage → Option (NlResult (Unit {0}))
ack_of seq m =
    if m.seq == seq
    then if m.msg_type == nlmsg_error
      then some (data_word m errno_result)
      else if m.msg_type == nlmsg_done
      then some (ok tt)
      else none
    else none

unfoldable pub recv_ack : ℕ → List Recv → NlResult (Unit {0})
recv_ack seq = recv_loop 8192 (ack_of seq)
