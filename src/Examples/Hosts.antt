-- ===== src/Examples/Hosts.antt =====
-- A host with an SSH listener, a name server on the loopback interface and on all addresses, and a
-- connected client.
use auto_xdp.Base.{
  List, [], add, any, arith, bool_key, contains, false, if◌then◌else◌, insert, list_key, lookup,
  map, nat_key, none, not, option_key, pair_key, refl, some, string_key, true, ℕ, ◌&&◌, ◌==◌, ◌||◌,
  ◌∷◌, ◌≡◌,
}
use auto_xdp.Bpf.Conntrack.{dest_port}
use auto_xdp.Discovery.{
  Addresses, Exclusions, af_inet, af_inet6, before_percent, bind_ip_is_exposed,
  discovery_exclude_networks, in_networks, pack_conntrack_key_raw,
}
use auto_xdp.Discovery.Keys.{dest_port-pack_conntrack_key_raw}
use auto_xdp.Discovery.Netlink.{
  Diag, Host, add_drops, add_udp, add_udp_ports, both_families, complete, each, exposed,
  get_listening_ports_netlink, proc_name, resolve_systemd, sctp_pass, see_established, see_listener,
  see_sctp, see_udp, server_signal, sock_opts, udp_reported,
}
use auto_xdp.Discovery.Netlink.Messages.{nldiag_dump}
use auto_xdp.Discovery.Netlink.Messages.Layout.{Done, IsSocketMessage, SocketMessage, decoded}
use auto_xdp.Discovery.Netlink.Messages.Replies.{finished, nldiag_dump-replies, replies}
use auto_xdp.Discovery.Netlink.Observed.{any_socket, contains-netlink_tcp, opens}
use auto_xdp.Discovery.Netlink.Udp.{answers, contains-netlink_udp, udp_sockets}
use auto_xdp.ProcEvents.{drain_proc_events, drained}
use auto_xdp.ProcEvents.Triggers.{
  IsMessage, Message, drain_proc_events-encode_all, encode_all, message_triggers,
}
use auto_xdp.State.{Bytes, ObservedState}

abbrev sample_addresses : Addresses
sample_addresses = record {
  ip_address = λ text.
      if text == "127.0.0.1"
      then some (record {
        version = 4;
        value = 2130706433;
        is_loopback = true;
        is_multicast = false;
        is_link_local = false;
      })
      else some (record {
        version = 4;
        value = 167772161;
        is_loopback = false;
        is_multicast = false;
        is_link_local = false;
      });
  ip_network = λ text. none;
}

abbrev sample_exclusions : Exclusions
sample_exclusions = record {
  exclude_loopback = true;
  exclude_bind_cidrs = [];
  exclude_ports = 631 ∷ [];
}

abbrev any_address : Bytes
any_address = 0 ∷ 0 ∷ 0 ∷ 0 ∷ []

abbrev loopback_address : Bytes
loopback_address = 127 ∷ 0 ∷ 0 ∷ 1 ∷ []

abbrev sample_socket : ℕ → ℕ → Bytes → Diag
sample_socket sport dport src = record {
  sport = sport;
  dport = dport;
  src = src;
  dst = any_address;
  inode = 0;
  rqueue = 0;
}

abbrev sample_dump : ℕ → ℕ → ℕ → List Diag
sample_dump family proto states =
    if family == 2 && proto == 6 && states == 1024
    then sample_socket 22 0 any_address ∷ sample_socket 631 0 any_address ∷ []
    else if family == 2 && proto == 17
    then sample_socket 53 0 loopback_address ∷ sample_socket 53 0 any_address ∷ []
    else if family == 10 && proto == 17
    then sample_socket 443 0 any_address ∷ []
    else []

abbrev sample_host : Host
sample_host = record {
  dump =
      λ family proto states. record { sockets = sample_dump family proto states; ends = complete };
  addr_str = λ family src. if src == loopback_address then "127.0.0.1" else "0.0.0.0";
  inode_pid = [];
  pid_comm = λ pid. "";
  systemd_sockets = [];
  proc_udp4 = [];
  proc_udp6 = [];
}

abbrev sample_observed : ObservedState
sample_observed = record {
  tcp = 22 ∷ [];
  udp = 443 ∷ [];
  sctp = [];
  established = [];
  tcp_processes = [];
  udp_processes = [];
  udp_sock_opts = [];
}

-- port 53 is open to the network and is not reported
sample_discovery :
    get_listening_ports_netlink sample_addresses sample_exclusions sample_host
    ≡ some sample_observed
unfolding get_listening_ports_netlink both_families each see_listener see_established see_udp
    see_sctp add_udp_ports add_udp add_drops udp_reported server_signal sock_opts exposed proc_name
    resolve_systemd sctp_pass bind_ip_is_exposed before_percent discovery_exclude_networks
    in_networks lookup insert contains add
sample_discovery = refl

contains-netlink_tcp_example : contains {K = ℕ} 22 sample_observed.tcp ≡ (
    not (contains {K = ℕ} 22 sample_exclusions.exclude_ports)
    && (any_socket
          (opens sample_addresses sample_exclusions sample_host 22 af_inet)
          (sample_dump 2 6 1024)
        || any_socket
            (opens sample_addresses sample_exclusions sample_host 22 af_inet6)
            (sample_dump 10 6 1024)))
contains-netlink_tcp_example =
    contains-netlink_tcp sample_addresses sample_exclusions sample_host sample_observed 22
      sample_discovery

contains-netlink_udp_example :
    contains {K = ℕ} 53 sample_observed.udp
    ≡ answers sample_addresses sample_exclusions sample_host 53
        (udp_sockets sample_addresses sample_exclusions sample_host 53)
contains-netlink_udp_example =
    contains-netlink_udp sample_addresses sample_exclusions sample_host sample_observed 53 refl
      sample_discovery

dest_port-pack_conntrack_key_raw_example :
    dest_port (pack_conntrack_key_raw 2 22 50000 any_address loopback_address) ≡ 22
dest_port-pack_conntrack_key_raw_example =
    dest_port-pack_conntrack_key_raw 2 22 50000 any_address loopback_address (omega arith)

-- a fork, which is no trigger, with a payload that is padded, and an exec in the next buffer
abbrev fork_message : Message
fork_message = record {
  nl_type = 3;
  nl_flags = 0;
  nl_seq = 9;
  nl_pid = 0;
  idx = 1;
  val = 1;
  seq = 9;
  ack = 0;
  len = 5;
  flags = 0;
  what = 1;
  payload = 7 ∷ [];
  pad = 0 ∷ 0 ∷ 0 ∷ [];
}

abbrev exec_message : Message
exec_message = record fork_message { len = 4; what = 2; payload = []; pad = [] }

fork_message-IsMessage : IsMessage fork_message
fork_message-IsMessage = record {
  nl_len = omega arith;
  idx = omega arith;
  what = omega arith;
  pad = omega arith;
}

exec_message-IsMessage : IsMessage exec_message
exec_message-IsMessage = record {
  nl_len = omega arith;
  idx = omega arith;
  what = omega arith;
  pad = omega arith;
}

drain_proc_events-encode_all_example :
    drain_proc_events (map encode_all ((fork_message ∷ []) ∷ (exec_message ∷ []) ∷ [])) false
    ≡ drained (any (any message_triggers) ((fork_message ∷ []) ∷ (exec_message ∷ []) ∷ []))
drain_proc_events-encode_all_example =
    drain_proc_events-encode_all ((fork_message ∷ []) ∷ (exec_message ∷ []) ∷ []) false
      ((fork_message-IsMessage, tt), ((exec_message-IsMessage, tt), tt))

-- a listening socket, and a flow with one attribute of six bytes and its padding
abbrev ssh_socket : SocketMessage
ssh_socket = record {
  flags = 2;
  seq = 1;
  pid = 4242;
  family = 2;
  socket_state = 10;
  timer = 0;
  retrans = 0;
  sport = 22;
  dport = 0;
  src = 0;
  dst = 0;
  interface = 0;
  cookie = 77;
  expires = 0;
  rqueue = 0;
  wqueue = 128;
  uid = 0;
  inode = 4711;
  attributes = [];
  pad = [];
}

abbrev last_message : Done
last_message = record { flags = 2; seq = 1; pid = 4242; result = 0 }

abbrev ssh_flow : SocketMessage
ssh_flow = record ssh_socket {
  dport = 51514;
  src = 0x0100000A;
  dst = 0x0200000A;
  attributes = 6 ∷ 0 ∷ 14 ∷ 0 ∷ 1 ∷ 0 ∷ [];
  pad = 0 ∷ 0 ∷ [];
}

ssh_socket-IsSocketMessage : IsSocketMessage ssh_socket
ssh_socket-IsSocketMessage = record {
  msg_len = omega arith;
  sport = omega arith;
  dport = omega arith;
  rqueue = omega arith;
  inode = omega arith;
  pad = omega arith;
}

ssh_flow-IsSocketMessage : IsSocketMessage ssh_flow
ssh_flow-IsSocketMessage = record {
  msg_len = omega arith;
  sport = omega arith;
  dport = omega arith;
  rqueue = omega arith;
  inode = omega arith;
  pad = omega arith;
}

nldiag_dump-replies_example :
    nldiag_dump (replies ((ssh_flow ∷ []) ∷ []) (finished (ssh_socket ∷ []) last_message (7 ∷ [])))
    ≡ some (record { sockets = map decoded (ssh_flow ∷ ssh_socket ∷ []); ends = complete })
nldiag_dump-replies_example =
    nldiag_dump-replies ((ssh_flow ∷ []) ∷ []) (finished (ssh_socket ∷ []) last_message (7 ∷ []))
      ((ssh_flow-IsSocketMessage, tt), omega arith, tt) (ssh_socket-IsSocketMessage, tt)
