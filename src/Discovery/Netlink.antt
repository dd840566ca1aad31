-- ===== src/Discovery/Netlink.antt =====
-- `_get_listening_ports_netlink` of auto_xdp/discovery.py. What the host answers is a `Host`: the
-- dumps of SOCK_DIAG, /proc and systemctl, each read once in a pass.
pub mod Passes
pub mod Observed
pub mod Aggregate
pub mod Udp
pub mod Messages
use auto_xdp.Base.{
  Bool, Dict, List, Option, String, [], add, bool_key, contains, false, get_or, if◌then◌else◌,
  insert, list_key, lookup, ltb, nat_key, none, not, option_key, pair_key, some, string_key, true,
  ℕ, ◌&&◌, ◌++◌, ◌+◌, ◌==◌, ◌>>=◌, ◌^◌, ◌||◌, ◌∷◌,
}
use auto_xdp.Discovery.{
  Addresses, Exclusions, af_inet, af_inet6, bind_ip_is_exposed, discovery_exclude_networks,
  pack_conntrack_key_raw,
}
use auto_xdp.State.{Bytes, ObservedState}

-- a socket of a dump, as `_nldiag_dump` yields it
pub record Diag : Type 0 where
  pub sport : ℕ
  pub dport : ℕ
  pub src : Bytes
  pub dst : Bytes
  pub inode : ℕ
  pub rqueue : ℕ

-- how a dump ends; a DiscoveryError is no OSError
pub data End : Type 0 where
  complete : End
  os_error : End
  dump_error : End

pub record Dump : Type 0 where
  pub sockets : List Diag
  pub ends : End

abbrev pub ipproto_tcp : ℕ
ipproto_tcp = 6

abbrev pub ipproto_udp : ℕ
ipproto_udp = 17

abbrev pub ipproto_sctp : ℕ
ipproto_sctp = 132

abbrev pub ss_listen : ℕ
ss_listen = 2 ^ 10

abbrev pub ss_established : ℕ
ss_established = 2

abbrev pub ss_all : ℕ
ss_all = 0xFFFFFFFF

pub record Host : Type 0 where
  pub dump : ℕ → ℕ → ℕ → Dump
  -- `_addr_str`, `_build_inode_pid`, `_pid_comm`, `_build_systemd_socket_map`
  pub addr_str : ℕ → Bytes → String
  pub inode_pid : Dict ℕ ℕ
  pub pid_comm : ℕ → String
  pub systemd_sockets : Dict ℕ String
  -- the drops by port of /proc/net/udp and udp6
  pub proc_udp4 : Dict ℕ ℕ
  pub proc_udp6 : Dict ℕ ℕ

-- what is known of the UDP sockets of one port
pub record UdpAgg : Type 0 where
  pub family : ℕ
  pub src : Bytes
  pub inode : ℕ
  pub rqueue : ℕ
  pub count : ℕ
  pub connected_only : Bool

abbrev pub empty_state : ObservedState
empty_state = record {
  tcp = [];
  udp = [];
  sctp = [];
  established = [];
  tcp_processes = [];
  udp_processes = [];
  udp_sock_opts = [];
}

-- a loop over the sockets of a dump
unfoldable pub each {ℓ} : {S : Type ℓ} → (Diag → S → S) → List Diag → S → S
each f [] s = s
each f (d ∷ socks) s = each f socks (f d s)

abbrev pub if_complete {ℓ} : {S : Type ℓ} → End → S → Option S
if_complete complete s = some s
if_complete os_error s = none
if_complete dump_error s = none

-- the loop, where the exception of the dump leaves the function
abbrev pub over {ℓ} : {S : Type ℓ} → (Diag → S → S) → Dump → S → Option S
over f d s = if_complete d.ends (each f d.sockets s)

-- `proc_udp`, the drops of both files by port
unfoldable pub add_drops : Dict ℕ ℕ → Dict ℕ ℕ → Dict ℕ ℕ
add_drops [] proc_udp = proc_udp
add_drops ((port, drops) ∷ file) proc_udp =
    add_drops file (insert port (get_or (lookup port proc_udp) 0 + drops) proc_udp)

-- the record of a port after one more of its sockets
abbrev pub next_agg : ℕ → Diag → Option UdpAgg → UdpAgg
next_agg family d none = record {
  family = family;
  src = d.src;
  inode = d.inode;
  rqueue = d.rqueue;
  count = 1;
  connected_only = not (d.dport == 0);
}
next_agg family d (some info) = record info {
  rqueue = info.rqueue + d.rqueue;
  count = info.count + 1;
  connected_only = info.connected_only && not (d.dport == 0);
}

unfoldable pub see_udp : ℕ → Diag → Dict ℕ UdpAgg → Dict ℕ UdpAgg
see_udp family d udp_agg =
    if d.sport == 0
    then udp_agg
    else insert d.sport (next_agg family d (lookup d.sport udp_agg)) udp_agg

-- the options that are set, in the order in which they are tested
unfoldable pub sock_opts : UdpAgg → ℕ → List String
sock_opts info drops =
    (if ltb 1 info.count then "SO_REUSEPORT" ∷ [] else [])
    ++ ((if ltb 0 info.rqueue then "rx_queue>0" ∷ [] else [])
        ++ (if ltb 0 drops then "drops>0" ∷ [] else []))

-- `if name: processes[port] = name`
abbrev pub put_name : ℕ → String → Dict ℕ String → Dict ℕ String
put_name port name names = if name == "" then names else insert port name names

-- the signs of a server on a port whose sockets are all connected
unfoldable pub server_signal : UdpAgg → ℕ → Bool
server_signal info drops = ltb 1 info.count || ltb 0 info.rqueue || ltb 0 drops

-- `except OSError: pass` round the two dumps
abbrev pub sctp_ends : End → End → ObservedState → ObservedState → Option ObservedState
sctp_ends dump_error second state4 state6 = none
sctp_ends os_error second state4 state6 = some state4
sctp_ends complete dump_error state4 state6 = none
sctp_ends complete os_error state4 state6 = some state6
sctp_ends complete complete state4 state6 = some state6

module _ (addresses : Addresses) (excl : Exclusions) (host : Host) where
  unfoldable pub proc_name : ℕ → String
  proc_name inode =
      if inode == 0
      then ""
      else elim (lookup inode host.inode_pid) [ none ↦ "" | some pid ↦ host.pid_comm pid ]

  unfoldable pub resolve_systemd : String → ℕ → String
  resolve_systemd name port =
      if name == "systemd" then get_or (lookup port host.systemd_sockets) name else name

  -- the address of a socket counts as exposed
  unfoldable pub exposed : ℕ → Bytes → Bool
  exposed family src =
      bind_ip_is_exposed addresses excl (host.addr_str family src)
        (discovery_exclude_networks addresses excl)

  unfoldable pub see_listener : ℕ → Diag → ObservedState → ObservedState
  see_listener family d state =
      if not (exposed family d.src)
      then state
      else if contains d.sport excl.exclude_ports
      then state
      else record state {
        tcp = add d.sport state.tcp;
        tcp_processes =
            put_name d.sport (resolve_systemd (proc_name d.inode) d.sport) state.tcp_processes;
      }

  unfoldable pub see_established : ℕ → Diag → ObservedState → ObservedState
  see_established family d state = if not (exposed family d.src) then state else record state {
    established = add (pack_conntrack_key_raw family d.sport d.dport d.src d.dst) state.established;
  }

  unfoldable pub see_sctp : ℕ → Diag → ObservedState → ObservedState
  see_sctp family d state =
      if exposed family d.src && not (contains d.sport excl.exclude_ports)
      then record state { sctp = add d.sport state.sctp }
      else state

  -- whether the loop over `udp_agg` adds the port
  unfoldable pub udp_reported : ℕ → UdpAgg → ℕ → Bool
  udp_reported port info drops =
      if not (exposed info.family info.src)
      then false
      else if contains port excl.exclude_ports
      then false
      else if info.connected_only
      then server_signal info drops
      else true

  unfoldable pub add_udp : ℕ → UdpAgg → ℕ → ObservedState → ObservedState
  add_udp port info drops state =
      if not (udp_reported port info drops) then state else record state {
        udp = add port state.udp;
        udp_processes =
            put_name port (resolve_systemd (proc_name info.inode) port) state.udp_processes;
        udp_sock_opts =
            if sock_opts info drops == []
            then state.udp_sock_opts
            else insert port (sock_opts info drops) state.udp_sock_opts;
      }

  unfoldable pub add_udp_ports : Dict ℕ ℕ → Dict ℕ UdpAgg → ObservedState → ObservedState
  add_udp_ports proc_udp [] state = state
  add_udp_ports proc_udp ((port, info) ∷ udp_agg) state =
      add_udp_ports proc_udp udp_agg (add_udp port info (get_or (lookup port proc_udp) 0) state)

  -- the loop over both families within `try`: an OSError ends it, and keeps what was seen
  unfoldable pub sctp_pass : ObservedState → Option ObservedState
  sctp_pass state =
      let first = host.dump af_inet ipproto_sctp ss_listen in
      let second = host.dump af_inet6 ipproto_sctp ss_listen in
      let state4 = each (see_sctp af_inet) first.sockets state in
      let state6 = each (see_sctp af_inet6) second.sockets state4 in
      sctp_ends first.ends second.ends state4 state6

  -- the loop over both families
  unfoldable pub both_families {ℓ} : {S : Type ℓ} → (ℕ → Diag → S → S) → ℕ → ℕ → S → Option S
  both_families see proto states s = do
    s4 ← over (see af_inet) (host.dump af_inet proto states) s
    over (see af_inet6) (host.dump af_inet6 proto states) s4

  -- `none` is an exception
  unfoldable pub get_listening_ports_netlink : Option ObservedState
  get_listening_ports_netlink = do
    listeners ← both_families see_listener ipproto_tcp ss_listen empty_state
    state ← both_families see_established ipproto_tcp ss_established listeners
    udp_agg ← both_families see_udp ipproto_udp ss_all []
    let proc_udp = add_drops host.proc_udp6 (add_drops host.proc_udp4 [])
    sctp_pass (add_udp_ports proc_udp udp_agg state)
