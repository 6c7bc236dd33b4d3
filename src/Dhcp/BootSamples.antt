-- ===== src/Dhcp/BootSamples.antt =====
-- A run of the boot's DHCP on a small network, and the theorems on it there.
use asterkube.Prelude.{[], ◌∷◌, ◌++◌, none, some, ◌≡◌, refl, replicate}
use asterkube.Prelude.Words.{Bytes}
use asterkube.Prelude.Words.{bytes_eq}
use asterkube.Prelude.Bits.{and_not}
use asterkube.Inet.{to4, is_nil}
use asterkube.Netlink.Attr.{nl_align, parse_attrs, trim_nul}
use asterkube.Netlink.Message.{
  received, frame, recv_loop, ack_of, parse_datagram, parse_messages, message_of,
}
use asterkube.Netlink.Socket.{NlSocket, Reply, request, send}
use asterkube.Netlink.Requests.{add_addr_v4}
use asterkube.Netlink.Dump.{link_by_name, link_entry, scan_link, scan_attr, attrs_of}
use asterkube.Dhcp.Options.{parse_options, options_loop, take_option}
use asterkube.Dhcp.Receive.{
  recv_dhcp, lease_of, cut_to_buffer, packet_xid, packet_yiaddr, packet_options,
}
use asterkube.Dhcp.Client.{dhcp_acquire, discover_loop, select, merge_offer, or_dns}
use asterkube.Dhcp.Client.Renew.{IsComplete, dhcp_acquire-IsComplete}
use asterkube.Dhcp.Configure.{
  FirstEnv, Configured, apply_lease_delta, fallback_mac, dhcp_first, configure, assign,
}
use asterkube.Dhcp.Configure.LeaseFrames.{IsConfigured, dhcp_first-IsConfigured}
use asterkube.Dhcp.Samples.{acquire_env, leased, acquire_run}

abbrev eth0 : Bytes
eth0 = 101 ∷ 116 ∷ 104 ∷ 48 ∷ []

abbrev link_socket : NlSocket
link_socket = record { fd = 3; seq = 0; pid = 0 }

-- The interface's message: index 2 and the name.
abbrev link_reply : Reply
link_reply = record {
  send_error = none;
  arrives =
      received (
        frame 16 2 1 0 (
          (0 ∷ 0 ∷ 1 ∷ 0 ∷ 2 ∷ 0 ∷ 0 ∷ 0 ∷ replicate 8 0)
          ++ (9 ∷ 0 ∷ 3 ∷ 0 ∷ eth0)
          ++ 0 ∷ 0 ∷ 0 ∷ 0 ∷ []))
      ∷ [];
}

abbrev acknowledgment : Reply
acknowledgment = record {
  send_error = none;
  arrives = received (frame 2 0 1 0 (0 ∷ 0 ∷ 0 ∷ 0 ∷ [])) ∷ [];
}

abbrev first_env : FirstEnv
first_env = record {
  lookup_socket = some link_socket;
  lookup = link_reply;
  xid = 7;
  acquire = acquire_env;
  socket = some link_socket;
  apply = record { address = acknowledgment; route = acknowledgment };
}

abbrev eth0_configured : Configured
eth0_configured = record {
  applied =
      apply_lease_delta (some link_socket) 2 leased
        (record { address = acknowledgment; route = acknowledgment });
  mac = fallback_mac;
  index = 2;
  lease = leased;
}

-- The kernel shows no hardware address, so that the fallback asks for the lease.
first_run : dhcp_first first_env eth0 ≡ some eth0_configured
unfolding dhcp_first link_by_name link_entry scan_link scan_attr attrs_of parse_attrs nl_align
    and_not trim_nul bytes_eq request send recv_loop ack_of parse_datagram parse_messages message_of
    frame configure assign add_addr_v4 to4 dhcp_acquire discover_loop select merge_offer or_dns
    recv_dhcp lease_of cut_to_buffer packet_xid packet_yiaddr packet_options parse_options
    options_loop take_option is_nil
first_run = refl

dhcp_first-IsConfigured_example : IsConfigured first_env eth0 eth0_configured
dhcp_first-IsConfigured_example = dhcp_first-IsConfigured first_env eth0 eth0_configured first_run

leased-IsComplete : IsComplete leased
leased-IsComplete = dhcp_acquire-IsComplete fallback_mac 7 acquire_env leased acquire_run
