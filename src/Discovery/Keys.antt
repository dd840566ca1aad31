-- ===== src/Discovery/Keys.antt =====
-- The keys of auto_xdp/discovery.py, read by the conntrack maps of auto_xdp/bpf/maps.py.
use auto_xdp.Base.{
  arith, bool_key, list_key, nat_key, option_key, pair_key, string_key, ℕ, ◌<◌, ◌^◌, ◌≡◌,
}
use auto_xdp.Bpf.Conntrack.{dest_port}
use auto_xdp.Discovery.{pack_conntrack_key_raw}
use auto_xdp.State.{Bytes}

-- The key that discovery packs for a flow, of either family and also for an IPv4 flow on an IPv6
-- socket, is read by the conntrack maps as a flow to the local port.
pub dest_port-pack_conntrack_key_raw :
    (family sport_h dport_h : ℕ) (src dst : Bytes)
    → sport_h < 2 ^ 16
    → dest_port (pack_conntrack_key_raw family sport_h dport_h src dst) ≡ sport_h
unfolding dest_port pack_conntrack_key_raw
dest_port-pack_conntrack_key_raw family sport_h dport_h src dst h = ground arith
