-- ===== src/State.antt =====
-- auto_xdp/state.py: what was observed, what is wanted, what a backend has in place, and the plan
-- that leads from the one to the other.
pub mod Plan
pub mod Reached
pub mod Carry
use auto_xdp.Base.{
  Bool, Dict, List, Option, String, bool_key, difference, filter_items, if◌then◌else◌, keys,
  list_key, lookup, nat_key, none, not, option_key, pair_key, set_eq, some, string_key, true, ℕ,
  ◌==◌,
}

-- a `bytes` value, one number below 256 to a byte
abbrev pub Bytes : Type 0
Bytes = List ℕ

-- the eight numbers of `xdp_runtime_config`, in the order of the tuple
pub record RuntimeConfig : Type 0 where
  pub tcp_timeout_ns : ℕ
  pub udp_timeout_ns : ℕ
  pub conntrack_refresh_ns : ℕ
  pub icmp_burst_packets : ℕ
  pub icmp_ns_per_token : ℕ
  pub udp_global_window_ns : ℕ
  pub rate_window_ns : ℕ
  pub syn_timeout_ns : ℕ

abbrev pub AclRules : Type 0
AclRules = Dict (String × String) (List ℕ)

pub record ObservedState : Type 0 where
  pub tcp : List ℕ
  pub udp : List ℕ
  pub sctp : List ℕ
  pub established : List Bytes
  pub tcp_processes : Dict ℕ String
  pub udp_processes : Dict ℕ String
  pub udp_sock_opts : Dict ℕ (List String)

pub record DesiredState : Type 0 where
  pub tcp_ports : List ℕ
  pub udp_ports : List ℕ
  pub sctp_ports : List ℕ
  pub trusted_cidrs : List String
  pub conntrack_entries : List Bytes
  pub tcp_syn_rate_limits : Dict ℕ ℕ
  pub tcp_syn_agg_rate_limits : Dict ℕ ℕ
  pub tcp_conn_limits : Dict ℕ ℕ
  pub tcp_conn_prefix_limits : Dict ℕ ℕ
  pub tcp_conn_port_limits : Dict ℕ ℕ
  pub udp_rate_limits : Dict ℕ ℕ
  pub udp_agg_rate_limits : Dict ℕ ℕ
  pub tcp_rate_map_entries : Dict ℕ ℕ
  pub udp_rate_map_entries : Dict ℕ ℕ
  pub acl_rules : AclRules
  pub bogon_filter_enabled : Bool
  pub drop_events_enabled : Bool
  pub rate_limit_source_prefix_v4 : ℕ
  pub rate_limit_source_prefix_v6 : ℕ
  pub udp_global_byte_rate : ℕ
  pub xdp_runtime_config : RuntimeConfig

pub record AppliedState : Type 0 where
  pub tcp_ports : List ℕ
  pub udp_ports : List ℕ
  pub sctp_ports : List ℕ
  pub trusted_cidrs : List String
  pub conntrack_entries : List Bytes
  pub tcp_syn_rate_limits : Dict ℕ ℕ
  pub tcp_syn_agg_rate_limits : Dict ℕ ℕ
  pub tcp_conn_limits : Dict ℕ ℕ
  pub tcp_conn_prefix_limits : Dict ℕ ℕ
  pub tcp_conn_port_limits : Dict ℕ ℕ
  pub udp_rate_limits : Dict ℕ ℕ
  pub udp_agg_rate_limits : Dict ℕ ℕ
  pub acl_rules : AclRules
  pub bogon_filter_enabled : Option Bool
  pub drop_events_enabled : Option Bool
  pub rate_limit_source_prefix_v4 : ℕ
  pub rate_limit_source_prefix_v6 : ℕ
  pub udp_global_byte_rate : Option ℕ
  pub xdp_runtime_config : Option RuntimeConfig

pub record ReconcilePlan : Type 0 where
  pub tcp_ports_to_add : List ℕ
  pub tcp_ports_to_remove : List ℕ
  pub udp_ports_to_add : List ℕ
  pub udp_ports_to_remove : List ℕ
  pub sctp_ports_to_add : List ℕ
  pub sctp_ports_to_remove : List ℕ
  pub trusted_cidrs_to_add : List String
  pub trusted_cidrs_to_remove : List String
  pub conntrack_entries_to_add : List Bytes
  pub conntrack_entries_to_remove : List Bytes
  pub tcp_syn_rate_limits_to_upsert : Dict ℕ ℕ
  pub tcp_syn_rate_limits_to_remove : List ℕ
  pub tcp_syn_agg_rate_limits_to_upsert : Dict ℕ ℕ
  pub tcp_syn_agg_rate_limits_to_remove : List ℕ
  pub tcp_conn_limits_to_upsert : Dict ℕ ℕ
  pub tcp_conn_limits_to_remove : List ℕ
  pub tcp_conn_prefix_limits_to_upsert : Dict ℕ ℕ
  pub tcp_conn_prefix_limits_to_remove : List ℕ
  pub tcp_conn_port_limits_to_upsert : Dict ℕ ℕ
  pub tcp_conn_port_limits_to_remove : List ℕ
  pub udp_rate_limits_to_upsert : Dict ℕ ℕ
  pub udp_rate_limits_to_remove : List ℕ
  pub udp_agg_rate_limits_to_upsert : Dict ℕ ℕ
  pub udp_agg_rate_limits_to_remove : List ℕ
  pub acl_rules_to_upsert : AclRules
  pub acl_rules_to_remove : List (String × String)
  pub bogon_filter_update : Option Bool
  pub drop_events_update : Option Bool
  pub udp_global_byte_rate_update : Option ℕ

-- `applied.get(key) != value`
abbrev pub differs : Dict ℕ ℕ → ℕ → ℕ → Bool
differs applied key value = not (lookup key applied == some value)

unfoldable pub dict_upserts : Dict ℕ ℕ → Dict ℕ ℕ → Dict ℕ ℕ
dict_upserts desired applied = filter_items (differs applied) desired

unfoldable pub dict_removals : Dict ℕ ℕ → Dict ℕ ℕ → List ℕ
dict_removals desired applied = difference (keys applied) (keys desired)

-- `a != b` on an optional set
abbrev pub set_differs : Option (List ℕ) → List ℕ → Bool
set_differs none ports = true
set_differs (some old) ports = not (set_eq old ports)

unfoldable pub acl_upserts : AclRules → AclRules → AclRules
acl_upserts desired applied =
    filter_items (λ key ports. set_differs (lookup key applied) ports) desired

-- `a is None or a != b`: the value to write, if one is to be written
unfoldable pub flag_update : Option Bool → Bool → Option Bool
flag_update none wanted = some wanted
flag_update (some current) wanted = if current == wanted then none else some wanted

unfoldable pub rate_update : Option ℕ → ℕ → Option ℕ
rate_update none wanted = some wanted
rate_update (some current) wanted = if current == wanted then none else some wanted

unfoldable pub compute_reconcile_plan : DesiredState → AppliedState → ReconcilePlan
compute_reconcile_plan desired applied = record {
  tcp_ports_to_add = difference desired.tcp_ports applied.tcp_ports;
  tcp_ports_to_remove = difference applied.tcp_ports desired.tcp_ports;
  udp_ports_to_add = difference desired.udp_ports applied.udp_ports;
  udp_ports_to_remove = difference applied.udp_ports desired.udp_ports;
  sctp_ports_to_add = difference desired.sctp_ports applied.sctp_ports;
  sctp_ports_to_remove = difference applied.sctp_ports desired.sctp_ports;
  trusted_cidrs_to_add = difference desired.trusted_cidrs applied.trusted_cidrs;
  trusted_cidrs_to_remove = difference applied.trusted_cidrs desired.trusted_cidrs;
  conntrack_entries_to_add = difference desired.conntrack_entries applied.conntrack_entries;
  conntrack_entries_to_remove = difference applied.conntrack_entries desired.conntrack_entries;
  tcp_syn_rate_limits_to_upsert =
      dict_upserts desired.tcp_syn_rate_limits applied.tcp_syn_rate_limits;
  tcp_syn_rate_limits_to_remove =
      dict_removals desired.tcp_syn_rate_limits applied.tcp_syn_rate_limits;
  tcp_syn_agg_rate_limits_to_upsert =
      dict_upserts desired.tcp_syn_agg_rate_limits applied.tcp_syn_agg_rate_limits;
  tcp_syn_agg_rate_limits_to_remove =
      dict_removals desired.tcp_syn_agg_rate_limits applied.tcp_syn_agg_rate_limits;
  tcp_conn_limits_to_upsert = dict_upserts desired.tcp_conn_limits applied.tcp_conn_limits;
  tcp_conn_limits_to_remove = dict_removals desired.tcp_conn_limits applied.tcp_conn_limits;
  tcp_conn_prefix_limits_to_upsert =
      dict_upserts desired.tcp_conn_prefix_limits applied.tcp_conn_prefix_limits;
  tcp_conn_prefix_limits_to_remove =
      dict_removals desired.tcp_conn_prefix_limits applied.tcp_conn_prefix_limits;
  tcp_conn_port_limits_to_upsert =
      dict_upserts desired.tcp_conn_port_limits applied.tcp_conn_port_limits;
  tcp_conn_port_limits_to_remove =
      dict_removals desired.tcp_conn_port_limits applied.tcp_conn_port_limits;
  udp_rate_limits_to_upsert = dict_upserts desired.udp_rate_limits applied.udp_rate_limits;
  udp_rate_limits_to_remove = dict_removals desired.udp_rate_limits applied.udp_rate_limits;
  udp_agg_rate_limits_to_upsert =
      dict_upserts desired.udp_agg_rate_limits applied.udp_agg_rate_limits;
  udp_agg_rate_limits_to_remove =
      dict_removals desired.udp_agg_rate_limits applied.udp_agg_rate_limits;
  acl_rules_to_upsert = acl_upserts desired.acl_rules applied.acl_rules;
  acl_rules_to_remove = difference (keys applied.acl_rules) (keys desired.acl_rules);
  bogon_filter_update = flag_update applied.bogon_filter_enabled desired.bogon_filter_enabled;
  drop_events_update = flag_update applied.drop_events_enabled desired.drop_events_enabled;
  udp_global_byte_rate_update =
      rate_update applied.udp_global_byte_rate desired.udp_global_byte_rate;
}
