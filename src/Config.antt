-- ===== src/Config.antt =====
-- auto_xdp/config.py: the module's globals, as the record that the other components read, and
-- auto_xdp/services.py: the names of ports. Floats are a parameter, `Float`: the program only
-- scales them to nanoseconds, inverts and rounds them and compares them with zero.
pub mod ServicesFile
use auto_xdp.Base.{
  Bool, Dict, List, String, bool_key, get_or, list_key, lookup, nat_key, option_key, pair_key,
  string_key, ℕ,
}

-- What the policy asks of a Python float.
pub record Float : Type 1 where
  pub Val : Type 0
  -- `int(value * 1_000_000_000)`
  pub to_ns : Val → ℕ
  -- `int(1_000_000_000 / value)`
  pub per_second_ns : Val → ℕ
  -- `int(math.ceil(value))`
  pub ceil : Val → ℕ
  -- `value > 0`
  pub positive : Val → Bool

pub record AclRule : Type 0 where
  pub proto : String
  pub cidr : String
  pub ports : List ℕ

-- Rates and counts by process and by service, as the `_X_BY_PROC`, `_X_BY_SERVICE` pairs.
pub record Limits : Type 0 where
  pub by_proc : Dict String ℕ
  pub by_service : Dict String ℕ

pub record Config (F : Float) : Type 0 where
  pub syn_rate : Limits
  pub syn_agg_rate : Limits
  pub tcp_conn : Limits
  pub tcp_conn_prefix : Limits
  pub tcp_conn_port : Limits
  pub udp_rate : Limits
  pub udp_agg_bytes : Limits
  pub rate_map_entries : Limits
  pub rate_map_entries_v4 : ℕ
  pub rate_map_entries_v6 : ℕ
  pub xdp_sensitive_port_threshold : ℕ
  pub xdp_default_tcp_syn_rate_strict : ℕ
  pub xdp_default_tcp_syn_rate : ℕ
  pub xdp_default_tcp_syn_agg_rate_strict : ℕ
  pub xdp_default_tcp_syn_agg_rate : ℕ
  pub xdp_default_tcp_established_per_src_strict : ℕ
  pub xdp_default_tcp_established_per_src : ℕ
  pub xdp_default_tcp_established_per_prefix_strict : ℕ
  pub xdp_default_tcp_established_per_prefix : ℕ
  pub xdp_default_tcp_established_per_port_strict : ℕ
  pub xdp_default_tcp_established_per_port : ℕ
  pub rate_limit_source_prefix_v4 : ℕ
  pub rate_limit_source_prefix_v6 : ℕ
  pub bogon_filter_enabled : Bool
  pub drop_events_enabled : Bool
  pub xdp_conntrack_stale_reconciles : ℕ
  pub xdp_tcp_timeout_seconds : F.Val
  pub xdp_udp_timeout_seconds : F.Val
  pub xdp_conntrack_refresh_seconds : F.Val
  pub xdp_icmp_burst_packets : ℕ
  pub xdp_icmp_rate_pps : F.Val
  pub xdp_udp_global_window_seconds : F.Val
  pub xdp_rate_window_seconds : F.Val
  pub xdp_syn_timeout_seconds : F.Val
  pub xdp_udp_global_byte_rate : ℕ
  pub tcp_permanent : Dict ℕ String
  pub udp_permanent : Dict ℕ String
  pub sctp_permanent : Dict ℕ String
  pub trusted_src_ips : Dict String String
  pub acl_rules : List AclRule
  pub sit4_endpoints : List String
  pub abuseipdb_enabled : Bool
  pub slot_default_action : String

-- `_service_map()`: what was read of /etc/services
abbrev pub Services : Type 0
Services = Dict (String × ℕ) String

unfoldable pub service_name : Services → ℕ → String → String
service_name services port proto = get_or (lookup (proto, port) services) ""
