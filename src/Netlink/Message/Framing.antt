-- ===== src/Netlink/Message/Framing.antt =====
-- What `send` frames, the library's message parser reads back.
use asterkube.Prelude.{
  ℕ, zero, suc, ◌+◌, ◌-◌, ◌%◌, ◌<◌, ◌≤◌, ◌≡◌, refl, ap, ◌∙◌, List, [], ◌∷◌, ◌++◌, arith, length,
  drop, take, length-append, take-append_at, drop-append_at, append-nil,
}
use asterkube.Prelude.Words.{Bytes, u16-put_u16, u32-put_u32}
use asterkube.Netlink.Attr.{nl_align, Parsed, parsed, map_parsed}
use asterkube.Netlink.Attr.RoundTrip.{nl_align_lem}
use asterkube.Netlink.Message.{NlMessage, frame, message_of, parse_messages, word_at}

-- The header fields fit their widths.
pub record FrameFits (msg_type flags seq pid : ℕ) (body : Bytes) : Type 0 where
  pub type_fits : msg_type < 65536
  pub flags_fit : flags < 65536
  pub seq_fits : seq < 4294967296
  pub pid_fits : pid < 4294967296
  pub length_fits : 16 + length body < 4294967296

pub then_message : NlMessage → Parsed (List NlMessage) → Parsed (List NlMessage)
then_message m = map_parsed (λ ms. m ∷ ms)

parse_messages_step :
    (fuel : ℕ) (b rest : Bytes)
    → 16 ≤ length b
    → 16 ≤ word_at 0 b
    → nl_align (word_at 0 b) ≤ length b
    → parse_messages (suc fuel) b rest
      ≡ then_message
          (message_of b rest)
          (parse_messages fuel (drop (nl_align (word_at 0 b)) b) rest)
unfolding parse_messages then_message
parse_messages_step fuel b rest h1 h2 h3 = ground arith

module _ (msg_type flags seq pid : ℕ) (body tail rest : Bytes) where
  abbrev pub framed : NlMessage
  framed = record {
    msg_type = msg_type;
    flags = flags;
    seq = seq;
    pid = pid;
    body = body;
    spare = tail ++ rest;
  }

  module _ (fits : FrameFits msg_type flags seq pid body) where
    size_read : word_at 0 (frame msg_type flags seq pid body ++ tail) ≡ 16 + length body
    unfolding frame
    size_read = u32-put_u32 (16 + length body) fits.length_fits

    abbrev size : ℕ
    size = word_at 0 (frame msg_type flags seq pid body ++ tail) - 16

    body_read : take size (body ++ tail) ≡ body
    body_read = take-append_at size body tail (omega (arith, size_read))

    spare_read : drop size (body ++ tail) ++ rest ≡ tail ++ rest
    spare_read = ap (λ t. t ++ rest) (drop-append_at size body tail (omega (arith, size_read)))

    message_read : message_of (frame msg_type flags seq pid body ++ tail) rest ≡ framed
    unfolding frame message_of
    message_read = λ i. record {
      msg_type = u16-put_u16 msg_type fits.type_fits i;
      flags = u16-put_u16 flags fits.flags_fit i;
      seq = u32-put_u32 seq fits.seq_fits i;
      pid = u32-put_u32 pid fits.pid_fits i;
      body = body_read i;
      spare = spare_read i;
    }

    length-frame : length (frame msg_type flags seq pid body) ≡ 16 + length body
    unfolding frame
    length-frame = omega arith

    -- A frame whose body is aligned, with more bytes behind it, is the first message of its
    -- datagram, field by field, and the parser goes on with the bytes behind it.
    pub parse_messages-frame :
        (fuel : ℕ)
        → length body % 4 ≡ 0
        → parse_messages (suc fuel) (frame msg_type flags seq pid body ++ tail) rest
          ≡ then_message framed (parse_messages fuel tail rest)
    parse_messages-frame fuel aligned =
        let whole = frame msg_type flags seq pid body in
        let grown : length (whole ++ tail) ≡ 16 + length body + length tail =
          omega (arith, length-append whole tail, length-frame) in
        let exact : nl_align (word_at 0 (whole ++ tail)) ≡ 16 + length body =
          omega (arith, size_read, nl_align_lem (word_at 0 (whole ++ tail))) in
        parse_messages_step fuel (whole ++ tail) rest (omega arith) (omega (arith, size_read))
          (omega arith)
        ∙ cc (
          message_read,
          drop-append_at (nl_align (word_at 0 (whole ++ tail))) whole tail
              (omega (arith, length-frame)),
        )

parse_messages-nil : (fuel : ℕ) (rest : Bytes) → parse_messages fuel [] rest ≡ parsed []
unfolding parse_messages
parse_messages-nil zero rest = refl
parse_messages-nil (suc fuel) rest = refl

-- A datagram that is one aligned frame holds that message and no other.
pub parse_messages-one :
    (msg_type flags seq pid : ℕ) (body rest : Bytes)
    → FrameFits msg_type flags seq pid body
    → length body % 4 ≡ 0
    → parse_messages
        (length (frame msg_type flags seq pid body))
        (frame msg_type flags seq pid body)
        rest
      ≡ parsed (framed msg_type flags seq pid body [] rest ∷ [])
unfolding then_message
parse_messages-one msg_type flags seq pid body rest fits aligned =
    let whole = frame msg_type flags seq pid body in
    let size = length-frame msg_type flags seq pid body [] rest fits in
    let count : length whole ≡ suc (15 + length body) = omega (arith, size) in
    let step : parse_messages (suc (15 + length body)) (whole ++ []) rest
        ≡ then_message (framed msg_type flags seq pid body [] rest) (parsed []) =
      parse_messages-frame msg_type flags seq pid body [] rest fits (15 + length body) aligned
      ∙ ap (then_message (framed msg_type flags seq pid body [] rest))
          (parse_messages-nil (15 + length body) rest) in
    rw (count, ← append-nil whole) step
