-- ===== src/Netlink/Message/Waiting.antt =====
-- What recvAck of cmd/asterkube-init/netlink_linux.go waits for, said without its loop.
use asterkube.Prelude.{
  ℕ, ◌≤◌, ◌≡◌, ◌≢◌, ◌⊎◌, ◌↔◌, inl, inr, refl, List, [], ◌∷◌, ◌++◌, Option, none, some, arith,
  length, All, ap,
}
use asterkube.Netlink.Attr.{Parsed, parsed, invalid, panicked, no_fuel}
use asterkube.Netlink.Message.{
  NlMessage, Recv, recv_failed, received, NlResult, ok, parse_datagram, nlmsg_error, nlmsg_done,
  word_at, ack_of, recv_ack, recv_loop, first_answer, answer_or,
}

-- A message of another request, or of a type that is no acknowledgment.
abbrev pub IsSilent : ℕ → NlMessage → Type 0
IsSilent seq m = (m.seq ≢ seq) ⊎ ((m.msg_type ≢ nlmsg_error) × (m.msg_type ≢ nlmsg_done))

-- DONE, or an error message with code 0, of this request.
abbrev pub Confirms : ℕ → NlMessage → Type 0
Confirms seq m =
    (m.seq ≡ seq)
    × ((m.msg_type ≡ nlmsg_done)
        ⊎ ((m.msg_type ≡ nlmsg_error)
            × (4 ≤ length (m.body ++ m.spare))
            × (word_at 0 (m.body ++ m.spare) ≡ 0)))

-- The first message that is not silent confirms.
abbrev pub FirstConfirms : ℕ → List NlMessage → Type 0
FirstConfirms seq [] = ⊥
FirstConfirms seq (m ∷ ms) = Confirms seq m ⊎ (IsSilent seq m × FirstConfirms seq ms)

-- Datagrams of silent messages alone are passed over.
abbrev pub Acked : ℕ → List Recv → Type 0
Acked seq [] = ⊥
Acked seq (recv_failed e ∷ more) = ⊥
Acked seq (received d ∷ more) =
    (ms : List NlMessage) × (parse_datagram 8192 d ≡ parsed ms)
    × (FirstConfirms seq ms ⊎ (All (IsSilent seq) ms × Acked seq more))

ack_of-silent : (seq : ℕ) (m : NlMessage) → IsSilent seq m → ack_of seq m ≡ none
unfolding ack_of
ack_of-silent seq m h = ground arith

ack_of-none : (seq : ℕ) (m : NlMessage) → ack_of seq m ≡ none → IsSilent seq m
unfolding ack_of
ack_of-none seq m h = ground arith

ack_of-Confirms : (seq : ℕ) (m : NlMessage) → Confirms seq m → ack_of seq m ≡ some (ok tt)
unfolding ack_of
ack_of-Confirms seq m h = ground arith

ack_of-ok : (seq : ℕ) (m : NlMessage) → ack_of seq m ≡ some (ok tt) → Confirms seq m
unfolding ack_of
ack_of-ok seq m h = ground arith

first_ok→FirstConfirms :
    (seq : ℕ) (ms : List NlMessage)
    → first_answer (ack_of seq) ms ≡ some (ok tt)
    → FirstConfirms seq ms
first_ok→FirstConfirms seq [] h = cc
first_ok→FirstConfirms seq (m ∷ ms) h =
    ground (arith, ack_of-none seq m, ack_of-ok seq m, first_ok→FirstConfirms seq ms)

FirstConfirms→first_ok :
    (seq : ℕ) (ms : List NlMessage)
    → FirstConfirms seq ms
    → first_answer (ack_of seq) ms ≡ some (ok tt)
FirstConfirms→first_ok seq [] h = elim h [ ]
FirstConfirms→first_ok seq (m ∷ ms) (inl c) = rw (ack_of-Confirms seq m c, first_answer)
FirstConfirms→first_ok seq (m ∷ ms) (inr (s, f)) =
    rw (ack_of-silent seq m s, first_answer) (FirstConfirms→first_ok seq ms f)

first_none→silent :
    (seq : ℕ) (ms : List NlMessage) → first_answer (ack_of seq) ms ≡ none → All (IsSilent seq) ms
first_none→silent seq [] h = tt
first_none→silent seq (m ∷ ms) h = ground (arith, ack_of-none seq m, first_none→silent seq ms)

silent→first_none :
    (seq : ℕ) (ms : List NlMessage) → All (IsSilent seq) ms → first_answer (ack_of seq) ms ≡ none
silent→first_none seq [] h = refl
silent→first_none seq (m ∷ ms) (s, h) =
    rw (ack_of-silent seq m s, first_answer) (silent→first_none seq ms h)

Answer-cases {ℓ} :
    {A : Type ℓ} (o : Option A) (d a : A)
    → answer_or o d ≡ a
    → (o ≡ some a) ⊎ ((o ≡ none) × (d ≡ a))
Answer-cases none d a h = inr (refl, h)
Answer-cases (some x) d a h = inl (ap some h)

recv_ack→Acked : (seq : ℕ) (replies : List Recv) → recv_ack seq replies ≡ ok tt → Acked seq replies
unfolding recv_ack recv_loop
recv_ack→Acked seq [] h = cc
recv_ack→Acked seq (recv_failed e ∷ more) h = cc
recv_ack→Acked seq (received d ∷ more) h =
    go (parse_datagram 8192 d) refl h (recv_ack→Acked seq more)
  where
    go :
        (p : Parsed (List NlMessage))
        → parse_datagram 8192 d ≡ p
        → elim p [
          | parsed ms ↦ answer_or (first_answer (ack_of seq) ms) (recv_ack seq more)
          | invalid ↦ NlResult.bad_message
          | panicked ↦ NlResult.index_panic
          | no_fuel ↦ NlResult.blocked
        ]
          ≡ ok tt
        → (recv_ack seq more ≡ ok tt → Acked seq more)
        → Acked seq (received d ∷ more)
    go (parsed ms) e k ih =
        elim (Answer-cases (first_answer (ack_of seq) ms) (recv_ack seq more) (ok tt) k) [
          | inl f ↦ (ms, e, inl (first_ok→FirstConfirms seq ms f))
          | inr (n, r) ↦ (ms, e, inr (first_none→silent seq ms n, ih r))
        ]
    go invalid e k ih = cc
    go panicked e k ih = cc
    go no_fuel e k ih = cc

Acked→recv_ack : (seq : ℕ) (replies : List Recv) → Acked seq replies → recv_ack seq replies ≡ ok tt
unfolding recv_ack recv_loop
Acked→recv_ack seq [] h = elim h [ ]
Acked→recv_ack seq (recv_failed e ∷ more) h = elim h [ ]
Acked→recv_ack seq (received d ∷ more) (ms, e, inl f) =
    rw (e, FirstConfirms→first_ok seq ms f, recv_loop)
Acked→recv_ack seq (received d ∷ more) (ms, e, inr (s, h)) =
    rw (e, silent→first_none seq ms s, recv_loop) (Acked→recv_ack seq more h)

-- recvAck returns without an error exactly when, in the order of arrival and with no failed
-- receive or malformed datagram before, the first error or done message that carries the request's
-- sequence number is DONE or has code 0; messages of other requests change nothing.
pub recv_ack-ok_iff :
    (seq : ℕ) (replies : List Recv) → (recv_ack seq replies ≡ ok tt) ↔ Acked seq replies
recv_ack-ok_iff seq replies = (recv_ack→Acked seq replies, Acked→recv_ack seq replies)
