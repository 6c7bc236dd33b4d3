-- ===== src/Netlink/Dump/Agree.antt =====
-- The two lookups of an interface by its name agree on the index.
use asterkube.Prelude.{
  ℕ, suc, ◌≤◌, ◌≡◌, refl, false, List, [], ◌∷◌, Option, none, some, arith, All, replicate, ◌==◌,
  if◌then◌else◌,
}
use asterkube.Prelude.Words.{Bytes}
use asterkube.Netlink.Attr.{RouteAttr, Parsed, parsed, invalid, panicked, no_fuel}
use asterkube.Netlink.Message.{
  NlMessage, Recv, recv_failed, received, NlResult, ok, syscall_failed, netlink_error, bad_message,
  not_ipv4, not_found, index_panic, blocked, parse_datagram, recv_loop, rtm_newlink, rtm_getlink,
  first_answer, answer_or,
}
use asterkube.Netlink.Socket.{NlSocket, Reply, request, send}
use asterkube.Netlink.Requests.{ifla_ifname, if_infomsg_len}
use asterkube.Netlink.Dump.{
  LinkScan, attrs_of, names_link, scan_link, scan_attr, index_entry, link_entry, dump_of,
  with_attrs, dump_flags, link_index_by_name, link_by_name,
}

-- How many of the attributes carry a name.
abbrev pub name_count : List RouteAttr → ℕ
name_count [] = 0
name_count (a ∷ attrs) = if a.kind == ifla_ifname then suc (name_count attrs) else name_count attrs

scan_none :
    (name : Bytes) (attrs : List RouteAttr) (st : LinkScan)
    → name_count attrs ≡ 0
    → (scan_link name st attrs).matched ≡ st.matched
unfolding scan_link scan_attr
scan_none name [] st h = refl
scan_none name (a ∷ attrs) st h = ground (arith, scan_none name attrs (scan_attr name st a))

names_none :
    (name : Bytes) (attrs : List RouteAttr) → name_count attrs ≡ 0 → names_link name attrs ≡ false
unfolding names_link
names_none name [] h = refl
names_none name (a ∷ attrs) h = ground (arith, names_none name attrs)

-- With one name at most, the last name that is looked at is the only one.
scan_matched :
    (name : Bytes) (attrs : List RouteAttr) (st : LinkScan)
    → name_count attrs ≤ 1
    → st.matched ≡ false
    → (scan_link name st attrs).matched ≡ names_link name attrs
unfolding scan_link scan_attr names_link
scan_matched name [] st h e = e
scan_matched name (a ∷ attrs) st h e = ground (
  arith,
  scan_matched name attrs (scan_attr name st a),
  scan_none name attrs (scan_attr name st a),
  names_none name attrs,
)

-- The index without the hardware address.
abbrev pub only_index : NlResult (ℕ × Bytes) → NlResult ℕ
only_index (ok p) = ok p.0
only_index (syscall_failed e) = syscall_failed e
only_index (netlink_error e) = netlink_error e
only_index bad_message = bad_message
only_index not_ipv4 = not_ipv4
only_index not_found = not_found
only_index index_panic = index_panic
only_index blocked = blocked

abbrev index_answer : Option (NlResult (ℕ × Bytes)) → Option (NlResult ℕ)
index_answer none = none
index_answer (some r) = some (only_index r)

-- A link's message carries its name once at most.
abbrev pub NamedOnce : NlMessage → Type 0
NamedOnce m = (attrs : List RouteAttr) → attrs_of 16 m ≡ parsed attrs → name_count attrs ≤ 1

abbrev pub AllNamedOnce : List Recv → Type 0
AllNamedOnce [] = Unit
AllNamedOnce (recv_failed e ∷ more) = Unit
AllNamedOnce (received d ∷ more) =
    ((ms : List NlMessage) → parse_datagram 16384 d ≡ parsed ms → All NamedOnce ms)
    × AllNamedOnce more

entry_agrees :
    (name : Bytes) (m : NlMessage)
    → NamedOnce m
    → index_answer (link_entry name m) ≡ index_entry name m
unfolding link_entry index_entry
entry_agrees name m once = go (attrs_of 16 m) refl
  where
    go :
        (p : Parsed (List RouteAttr))
        → attrs_of 16 m ≡ p
        → index_answer (link_entry name m) ≡ index_entry name m
    go (parsed attrs) e =
        rw (e, with_attrs)
          (ground (
            arith,
            scan_matched name attrs (record { matched = false; mac = [] }) (once attrs e) refl,
          ))
    go invalid e = rw (e, with_attrs)
    go panicked e = rw (e, with_attrs)
    go no_fuel e = rw (e, with_attrs)

dump_agrees :
    (name : Bytes) (seq : ℕ) (m : NlMessage)
    → NamedOnce m
    → index_answer (dump_of rtm_newlink not_found (link_entry name) seq m)
      ≡ dump_of rtm_newlink not_found (index_entry name) seq m
dump_agrees name seq m once = ground (arith, entry_agrees name m once)

first_step :
    (o : Option (NlResult (ℕ × Bytes))) (o' : Option (NlResult ℕ))
    (r : Option (NlResult (ℕ × Bytes))) (r' : Option (NlResult ℕ))
    → index_answer o ≡ o'
    → index_answer r ≡ r'
    → index_answer (elim o [ some a ↦ some a | none ↦ r ]) ≡ elim o' [ some a ↦ some a | none ↦ r' ]
first_step none o' r r' e f = rw (← e) f
first_step (some a) o' r r' e f = rw (← e)

answer_step :
    (o : Option (NlResult (ℕ × Bytes))) (o' : Option (NlResult ℕ)) (r : NlResult (ℕ × Bytes))
    (r' : NlResult ℕ)
    → index_answer o ≡ o'
    → only_index r ≡ r'
    → only_index (answer_or o r) ≡ answer_or o' r'
answer_step none o' r r' e f = rw (← e) f
answer_step (some a) o' r r' e f = rw (← e)

answers_agree :
    (name : Bytes) (seq : ℕ) (ms : List NlMessage)
    → All NamedOnce ms
    → index_answer (first_answer (dump_of rtm_newlink not_found (link_entry name) seq) ms)
      ≡ first_answer (dump_of rtm_newlink not_found (index_entry name) seq) ms
answers_agree name seq [] h = refl
answers_agree name seq (m ∷ ms) (once, h) =
    first_step (dump_of rtm_newlink not_found (link_entry name) seq m)
      (dump_of rtm_newlink not_found (index_entry name) seq m) _ _ (dump_agrees name seq m once)
      (answers_agree name seq ms h)

loops_agree :
    (name : Bytes) (seq : ℕ) (replies : List Recv)
    → AllNamedOnce replies
    → only_index (recv_loop 16384 (dump_of rtm_newlink not_found (link_entry name) seq) replies)
      ≡ recv_loop 16384 (dump_of rtm_newlink not_found (index_entry name) seq) replies
unfolding recv_loop
loops_agree name seq [] h = refl
loops_agree name seq (recv_failed e ∷ more) h = refl
loops_agree name seq (received d ∷ more) (once, h) =
    go (parse_datagram 16384 d) refl (loops_agree name seq more h)
  where
    go :
        (p : Parsed (List NlMessage))
        → parse_datagram 16384 d ≡ p
        → only_index (recv_loop 16384 (dump_of rtm_newlink not_found (link_entry name) seq) more)
          ≡ recv_loop 16384 (dump_of rtm_newlink not_found (index_entry name) seq) more
        → only_index (
            recv_loop 16384
              (dump_of rtm_newlink not_found (link_entry name) seq)
              (received d ∷ more))
          ≡ recv_loop 16384
              (dump_of rtm_newlink not_found (index_entry name) seq)
              (received d ∷ more)
    go (parsed ms) e ih =
        rw (e, recv_loop) (answer_step _ _ _ _ (answers_agree name seq ms (once ms e)) ih)
    go invalid e ih = rw (e, recv_loop)
    go panicked e ih = rw (e, recv_loop)
    go no_fuel e ih = rw (e, recv_loop)

-- linkByName and linkIndexByName, given the same replies, end in the same way: the same error, or
-- the same index, which linkByName returns beside the hardware address. It is assumed that no link's
-- message carries two names, of which one function takes any and the other the last.
pub link_by_name-link_index_by_name :
    (s : NlSocket) (name : Bytes) (reply : Reply)
    → AllNamedOnce reply.arrives
    → only_index (link_by_name s name reply).result ≡ (link_index_by_name s name reply).result
unfolding link_by_name link_index_by_name request
link_by_name-link_index_by_name s name reply h =
    let seq = (send s rtm_getlink dump_flags (replicate if_infomsg_len 0)).0.seq in
    elim reply.send_error
      as (λ o.
        only_index (elim o [
          | some e ↦ syscall_failed e
          | none ↦
              recv_loop 16384 (dump_of rtm_newlink not_found (link_entry name) seq) reply.arrives
        ])
        ≡ elim o [
          | some e ↦ syscall_failed e
          | none ↦
              recv_loop 16384 (dump_of rtm_newlink not_found (index_entry name) seq) reply.arrives
        ]) [ none ↦ loops_agree name seq reply.arrives h | some e ↦ refl ]
