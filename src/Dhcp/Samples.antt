-- ===== src/Dhcp/Samples.antt =====
-- Runs of the DHCP client on small inputs, and its theorems there.
use asterkube.Inet.{is_unspecified, to4}
use asterkube.Prelude.Words.{bytes_eq}
use asterkube.Prelude.{
  ◌≢◌, ℕ, zero, suc, ◌≡◌, ◌↔◌, inl, inr, refl, false, List, [], ◌∷◌, ◌++◌, none, arith, All,
  replicate,
}
use asterkube.Prelude.Int.{sub64, IsNegative}
use asterkube.Prelude.Words.{Bytes}
use asterkube.Inet.{to4}
use asterkube.Dhcp.Options.{DhcpLease, parse_options, new_lease, options_loop, take_option}
use asterkube.Dhcp.Options.Items.{
  Item, pad, option, encode_items, take_items, IsProper, Stops, parse_options_total,
}
use asterkube.Dhcp.Receive.{
  failed, no_offer, Poll, would_block, datagram, ok, recv_dhcp, lease_of, cut_to_buffer, packet_xid,
  packet_yiaddr, packet_options,
}
use asterkube.Dhcp.Receive.Answers.{Answered, recv_dhcp-ok_iff}
use asterkube.Dhcp.Client.{
  AcquireEnv, RenewEnv, dhcp_acquire, dhcp_renew, discover_loop, select, merge_offer, or_dns,
  carry_forward,
}
use asterkube.Dhcp.Client.Acquire.{Acquired, dhcp_acquire-Acquired}
use asterkube.Dhcp.Client.Renew.{IsComplete}
use asterkube.Dhcp.Loop.{timers, renew_loop, RoundEnv}
use asterkube.Dhcp.Loop.Timing.{timers_overflow}
use asterkube.Dhcp.Loop.Keeping.{RoundUsable, renew_loop-usable}

abbrev mac : Bytes
mac = 2 ∷ 0 ∷ 0 ∷ 0 ∷ 0 ∷ 1 ∷ []

abbrev server : Bytes
server = 10 ∷ 0 ∷ 2 ∷ 2 ∷ []

abbrev client : Bytes
client = 10 ∷ 0 ∷ 2 ∷ 15 ∷ []

-- An ACK's options, with a pad between two of them and junk behind the end mark.
abbrev ack_items : List Item
ack_items =
    option 53 (5 ∷ [])
    ∷ pad
    ∷ option 1 (255 ∷ 255 ∷ 255 ∷ 0 ∷ [])
    ∷ option 51 (0 ∷ 1 ∷ 81 ∷ 128 ∷ [])
    ∷ []

abbrev junk : Bytes
junk = 255 ∷ 9 ∷ 9 ∷ []

lease_time_run :
    (parse_options (encode_items ack_items ++ junk) (new_lease client)).lease.lease_sec ≡ 86400
unfolding parse_options options_loop take_option
lease_time_run = refl

parse_options_total_example :
    (items : List Item) × (tail : Bytes) × (encode_items items ++ tail
      ≡ 53 ∷ 1 ∷ 5 ∷ 51 ∷ 4 ∷ 0 ∷ [])
    × All IsProper items
    × Stops tail
    × (parse_options (53 ∷ 1 ∷ 5 ∷ 51 ∷ 4 ∷ 0 ∷ []) (new_lease client)
        ≡ take_items items (record { msg_type = 0; lease = new_lease client }))
parse_options_total_example = parse_options_total (53 ∷ 1 ∷ 5 ∷ 51 ∷ 4 ∷ 0 ∷ []) (new_lease client)

-- A server's reply: a header with the transaction id and the address, and options.
abbrev reply_packet : ℕ → Bytes → Bytes
reply_packet xid_byte options =
    (2 ∷ 1 ∷ 6 ∷ 0 ∷ 0 ∷ 0 ∷ 0 ∷ xid_byte ∷ replicate 8 0)
    ++ (client ++ (replicate 220 0 ++ options))

abbrev ack_polls : List Poll
ack_polls =
    would_block
    ∷ datagram (reply_packet 8 (encode_items ack_items ++ junk))
    ∷ datagram (reply_packet 7 (encode_items ack_items ++ junk))
    ∷ []

abbrev offer_polls : List Poll
offer_polls = datagram (reply_packet 7 (53 ∷ 1 ∷ 2 ∷ 54 ∷ 4 ∷ 10 ∷ 0 ∷ 2 ∷ 2 ∷ 255 ∷ [])) ∷ []

abbrev pub leased : DhcpLease
leased = record {
  ip = client;
  mask = 255 ∷ 255 ∷ 255 ∷ 0 ∷ [];
  gateway = [];
  dns = [];
  server_id = [];
  lease_sec = 86400;
}

recv_dhcp-ok_iff_example : (recv_dhcp 7 5 ack_polls ≡ ok leased) ↔ Answered 7 5 leased ack_polls
recv_dhcp-ok_iff_example = recv_dhcp-ok_iff 7 5 leased ack_polls

ack_run : recv_dhcp 7 5 ack_polls ≡ ok leased
unfolding recv_dhcp lease_of cut_to_buffer packet_xid packet_yiaddr packet_options parse_options
    options_loop take_option
ack_run = refl

-- The first DISCOVER is lost.
abbrev polls_of_try : ℕ → List Poll
polls_of_try zero = would_block ∷ []
polls_of_try (suc k) = offer_polls

abbrev pub acquire_env : AcquireEnv
acquire_env = record {
  socket = none;
  bind = none;
  discover_send = λ k. none;
  discover_polls = polls_of_try;
  request_send = none;
  request_polls = ack_polls;
}

-- The server's id of the OFFER does not reach the lease, since the ACK leaves it out.
pub acquire_run : (dhcp_acquire mac 7 acquire_env).result ≡ ok leased
unfolding dhcp_acquire discover_loop select merge_offer or_dns recv_dhcp lease_of cut_to_buffer
    packet_xid packet_yiaddr packet_options parse_options options_loop take_option
    asterkube.Inet.is_nil
acquire_run = refl

dhcp_acquire-Acquired_example :
    Acquired mac 7 acquire_env leased (dhcp_acquire mac 7 acquire_env).sent
dhcp_acquire-Acquired_example = dhcp_acquire-Acquired mac 7 acquire_env leased acquire_run

abbrev renew_env : RenewEnv
renew_env = record { socket = none; bind = none; send = none; polls = ack_polls }

renew_run : (dhcp_renew mac 7 leased false renew_env).result ≡ ok leased
unfolding dhcp_renew carry_forward or_dns recv_dhcp lease_of cut_to_buffer packet_xid packet_yiaddr
    packet_options parse_options options_loop take_option asterkube.Inet.is_nil
    asterkube.Inet.is_unspecified
renew_run = refl

abbrev silent_acquire : AcquireEnv
silent_acquire = record {
  socket = none;
  bind = none;
  discover_send = λ k. none;
  discover_polls = λ k. [];
  request_send = none;
  request_polls = [];
}

abbrev silent_renew : RenewEnv
silent_renew = record { socket = none; bind = none; send = none; polls = would_block ∷ [] }

-- A round in which nobody answers.
abbrev silent_round : RoundEnv
silent_round = record {
  override = none;
  renew_xid = 1;
  renew = silent_renew;
  rebind_xid = 2;
  rebind = silent_renew;
  acquire_xid = 3;
  acquire = silent_acquire;
}

leased-IsComplete : IsComplete leased
leased-IsComplete = record {
  well_formed = record {
    ip_v4 = refl;
    mask_v4 = inr refl;
    gateway_v4 = inl refl;
    server_v4 = inl refl;
    dns_v4 = tt;
  };
  has_mask = refl;
}

-- A round in which the first renewal is answered.
abbrev answered_round : RoundEnv
answered_round = record silent_round { renew_xid = 7; renew = renew_env }

acquires_nothing : (dhcp_acquire mac 3 silent_acquire).result ≡ failed no_offer
unfolding dhcp_acquire discover_loop recv_dhcp
acquires_nothing = refl

never_acquires : (new : DhcpLease) → (dhcp_acquire mac 3 silent_acquire).result ≢ ok new
never_acquires new e = absurd (ground (arith, acquires_nothing, e))

leased_is_real : is_unspecified leased.ip ≡ false
unfolding is_unspecified to4 bytes_eq
leased_is_real = refl

renew_loop-usable_example : RoundUsable (renew_loop mac leased (answered_round ∷ silent_round ∷ []))
renew_loop-usable_example =
    renew_loop-usable mac leased (answered_round ∷ silent_round ∷ [])
      ((λ new e. absurd (never_acquires new e)), ((λ new e. absurd (never_acquires new e)), tt))
      (leased-IsComplete, leased_is_real)

abbrev infinite : DhcpLease
infinite = record leased { lease_sec = 0xffffffff }

timers_overflow_example : IsNegative (sub64 (timers infinite none).t2 (timers infinite none).t1)
timers_overflow_example = timers_overflow infinite (omega arith) (omega arith)
