-- ===== src/Netlink/Socket.antt =====
-- The socket of cmd/asterkube-init/netlink_linux.go: its counter, `send`, and the exchange of a
-- request for an answer that every operation makes.
use asterkube.Prelude.{ℕ, ◌+◌, ◌%◌, ◌^◌, List, [], ◌∷◌, Option, none, some}
use asterkube.Prelude.Words.{Bytes}
use asterkube.Netlink.Message.{NlMessage, Recv, NlResult, syscall_failed, frame, recv_loop, ack_of}

pub record NlSocket : Type 0 where
  pub fd : ℕ
  pub seq : ℕ
  pub pid : ℕ

-- How the kernel meets one request: the error of Sendto, if it fails, and what Recvfrom then
-- gives, call by call.
pub record Reply : Type 0 where
  pub send_error : Option ℕ
  pub arrives : List Recv

-- The socket afterwards, the bytes handed to Sendto, and the result.
pub record Exchange (A : Type 0) : Type 0 where
  pub socket : NlSocket
  pub sent : List Bytes
  pub result : NlResult A

-- `s.seq++` on a uint32.
abbrev pub next_seq : NlSocket → NlSocket
next_seq s = record s { seq = (s.seq + 1) % 2 ^ 32 }

-- `nlSocket.send`: the frame is built before Sendto is called, whatever that returns.
unfoldable pub send : NlSocket → ℕ → ℕ → Bytes → NlSocket × Bytes
send s msg_type flags body = let s' = next_seq s in (s', frame msg_type flags s'.seq s'.pid body)

-- Send, give up on an error of Sendto, and wait for the answer to the sequence number.
unfoldable pub request :
    {A : Type 0}
    → NlSocket
    → ℕ
    → ℕ
    → Bytes
    → Reply
    → ℕ
    → (ℕ → NlMessage → Option (NlResult A))
    → Exchange A
unfolding send
request s msg_type flags body reply cap decide =
    let (s', bytes) = send s msg_type flags body in
    record {
      socket = s';
      sent = bytes ∷ [];
      result = elim reply.send_error [
        | some e ↦ syscall_failed e
        | none ↦ recv_loop cap (decide s'.seq) reply.arrives
      ];
    }

-- A request that recvAck answers.
abbrev pub acknowledged : NlSocket → ℕ → ℕ → Bytes → Reply → Exchange (Unit {0})
acknowledged s msg_type flags body reply = request s msg_type flags body reply 8192 ack_of
