-- ===== src/Policy.antt =====
-- auto_xdp/policy.py: the limits of each port, and the wanted state as a whole.
pub mod Tiers
pub mod Resolve
use auto_xdp.Base.{
  Bool, Dict, List, Option, String, [], bool_key, dict_for, false, filter_items, get_or,
  if◌then◌else◌, insert, is_some, keys, leb, list_key, lookup, ltb, max, nat_key, none, not,
  option_key, pair_key, some, string_key, true, union, ℕ, ◌&&◌, ◌*◌, ◌/◌, ◌==◌, ◌∷◌,
}
use auto_xdp.Config.{AclRule, Config, Float, Limits, Services, service_name}
use auto_xdp.State.{AclRules, DesiredState, ObservedState, RuntimeConfig}

-- `if text:`
abbrev pub truthy : String → Bool
truthy s = not (s == "")

-- `name in table`
abbrev pub has : String → Dict String ℕ → Bool
has name table = is_some (lookup name table)

-- `rate is not None and 0 < rate <= threshold`
abbrev pub within : ℕ → Option ℕ → Bool
within threshold none = false
within threshold (some rate) = ltb 0 rate && leb rate threshold

unfoldable pub rate_map_entries_v6 : {F : Float} → Config F → ℕ → ℕ
rate_map_entries_v6 cfg v4_entries =
    if v4_entries == cfg.rate_map_entries_v4
    then cfg.rate_map_entries_v6
    else max (v4_entries / 4) 64

module _ (services : Services) where
  unfoldable pub explicit_lookup : ℕ → String → Limits → Option ℕ
  explicit_lookup port proc limits =
      let svc = service_name services port "tcp" in
      if truthy proc && has proc limits.by_proc
      then lookup proc limits.by_proc
      else if truthy svc && has svc limits.by_service
      then lookup svc limits.by_service
      else none

  unfoldable pub resolve_service_limit : ℕ → String → String → Limits → ℕ
  resolve_service_limit port proto proc limits =
      let svc = service_name services port proto in
      let by_service = if truthy svc then get_or (lookup svc limits.by_service) 0 else 0 in
      if truthy proc then get_or (lookup proc limits.by_proc) by_service else by_service

  module _ {F : Float} (cfg : Config F) where
    unfoldable pub is_sensitive : ℕ → String → Bool
    is_sensitive port proc =
        let threshold = cfg.xdp_sensitive_port_threshold in
        let svc = service_name services port "tcp" in
        if truthy proc && within threshold (lookup proc cfg.syn_rate.by_proc)
        then true
        else truthy svc && within threshold (lookup svc cfg.syn_rate.by_service)

    unfoldable pub port_rate_limit : ℕ → String → ℕ
    port_rate_limit port proc =
        if truthy proc && has proc cfg.syn_rate.by_proc
        then get_or (lookup proc cfg.syn_rate.by_proc) 0
        else if is_sensitive port proc
        then cfg.xdp_default_tcp_syn_rate_strict
        else get_or (explicit_lookup port proc cfg.syn_rate) cfg.xdp_default_tcp_syn_rate

    unfoldable pub syn_aggregate_rate_limit : ℕ → String → ℕ
    syn_aggregate_rate_limit port proc = get_or (explicit_lookup port proc cfg.syn_agg_rate) (
        if is_sensitive port proc
        then cfg.xdp_default_tcp_syn_agg_rate_strict
        else cfg.xdp_default_tcp_syn_agg_rate)

    unfoldable pub tcp_conn_limit : ℕ → String → ℕ
    tcp_conn_limit port proc = get_or (explicit_lookup port proc cfg.tcp_conn) (
        if is_sensitive port proc
        then cfg.xdp_default_tcp_established_per_src_strict
        else cfg.xdp_default_tcp_established_per_src)

    unfoldable pub tcp_conn_prefix_limit : ℕ → String → ℕ
    tcp_conn_prefix_limit port proc = get_or (explicit_lookup port proc cfg.tcp_conn_prefix) (
        if is_sensitive port proc
        then cfg.xdp_default_tcp_established_per_prefix_strict
        else cfg.xdp_default_tcp_established_per_prefix)

    unfoldable pub tcp_conn_port_limit : ℕ → String → ℕ
    tcp_conn_port_limit port proc = get_or (explicit_lookup port proc cfg.tcp_conn_port) (
        if is_sensitive port proc
        then cfg.xdp_default_tcp_established_per_port_strict
        else cfg.xdp_default_tcp_established_per_port)

    unfoldable pub rate_map_entries : ℕ → String → ℕ
    rate_map_entries port proc =
        get_or (explicit_lookup port proc cfg.rate_map_entries) cfg.rate_map_entries_v4

    unfoldable pub udp_port_rate_limit : ℕ → String → ℕ
    udp_port_rate_limit port proc = resolve_service_limit port "udp" proc cfg.udp_rate

    unfoldable pub udp_aggregate_byte_limit : ℕ → String → ℕ
    udp_aggregate_byte_limit port proc =
        let limit = resolve_service_limit port "udp" proc cfg.udp_agg_bytes in
        let base = udp_port_rate_limit port proc in
        if ltb 0 limit then limit else if ltb 0 base then base * 1200 else 0

-- `process_names.get(port, "")`
abbrev pub process_of : Dict ℕ String → ℕ → String
process_of process_names port = get_or (lookup port process_names) ""

unfoldable pub resolve_port_limits : List ℕ → Dict ℕ String → (ℕ → String → ℕ) → Dict ℕ ℕ
resolve_port_limits ports process_names resolver =
    dict_for (λ port. resolver port (process_of process_names port)) ports

-- `{port: entries(port, …) for port, rate in limits.items() if rate > 0}`
unfoldable pub resolve_map_entries : Dict ℕ ℕ → Dict ℕ String → (ℕ → String → ℕ) → Dict ℕ ℕ
resolve_map_entries limits process_names entries =
    dict_for (λ port. entries port (process_of process_names port))
      (keys (filter_items (λ port rate. ltb 0 rate) limits))

-- the loop of `_desired_acl_rules`
unfoldable pub acl_rules_from : AclRules → List AclRule → AclRules
acl_rules_from desired [] = desired
acl_rules_from desired (rule ∷ rules) =
    acl_rules_from
      (if rule.ports == [] then desired else insert (rule.proto, rule.cidr) rule.ports desired)
      rules

unfoldable pub desired_acl_rules : {F : Float} → Config F → AclRules
desired_acl_rules cfg = acl_rules_from [] cfg.acl_rules

module _ {F : Float} (cfg : Config F) where
  unfoldable pub xdp_runtime_config : RuntimeConfig
  xdp_runtime_config = record {
    tcp_timeout_ns = F.to_ns cfg.xdp_tcp_timeout_seconds;
    udp_timeout_ns = F.to_ns cfg.xdp_udp_timeout_seconds;
    conntrack_refresh_ns = F.to_ns cfg.xdp_conntrack_refresh_seconds;
    icmp_burst_packets = cfg.xdp_icmp_burst_packets;
    icmp_ns_per_token =
        if F.positive cfg.xdp_icmp_rate_pps
        then max 1 (F.per_second_ns cfg.xdp_icmp_rate_pps)
        else 0;
    udp_global_window_ns = F.to_ns cfg.xdp_udp_global_window_seconds;
    rate_window_ns = F.to_ns cfg.xdp_rate_window_seconds;
    syn_timeout_ns = F.to_ns cfg.xdp_syn_timeout_seconds;
  }

-- `set(observed) | set(permanent)`
abbrev pub all_ports : List ℕ → Dict ℕ String → List ℕ
all_ports observed permanent = union observed (keys permanent)

unfoldable pub resolve_desired_state :
    {F : Float} → Services → Config F → ObservedState → DesiredState
resolve_desired_state services cfg observed =
    let tcp_ports = all_ports observed.tcp cfg.tcp_permanent in
    let udp_ports = all_ports observed.udp cfg.udp_permanent in
    let sctp_ports = all_ports observed.sctp cfg.sctp_permanent in
    let tcp = resolve_port_limits tcp_ports observed.tcp_processes in
    let udp = resolve_port_limits udp_ports observed.udp_processes in
    let tcp_syn_rate_limits = tcp (port_rate_limit services cfg) in
    let udp_rate_limits = udp (udp_port_rate_limit services cfg) in
    record {
      tcp_ports = tcp_ports;
      udp_ports = udp_ports;
      sctp_ports = sctp_ports;
      trusted_cidrs = keys cfg.trusted_src_ips;
      conntrack_entries = observed.established;
      tcp_syn_rate_limits = tcp_syn_rate_limits;
      tcp_syn_agg_rate_limits = tcp (syn_aggregate_rate_limit services cfg);
      tcp_conn_limits = tcp (tcp_conn_limit services cfg);
      tcp_conn_prefix_limits = tcp (tcp_conn_prefix_limit services cfg);
      tcp_conn_port_limits = tcp (tcp_conn_port_limit services cfg);
      udp_rate_limits = udp_rate_limits;
      udp_agg_rate_limits = udp (udp_aggregate_byte_limit services cfg);
      tcp_rate_map_entries =
          resolve_map_entries tcp_syn_rate_limits observed.tcp_processes
            (rate_map_entries services cfg);
      udp_rate_map_entries =
          resolve_map_entries udp_rate_limits observed.udp_processes
            (rate_map_entries services cfg);
      acl_rules = desired_acl_rules cfg;
      bogon_filter_enabled = cfg.bogon_filter_enabled;
      drop_events_enabled = cfg.drop_events_enabled;
      rate_limit_source_prefix_v4 = cfg.rate_limit_source_prefix_v4;
      rate_limit_source_prefix_v6 = cfg.rate_limit_source_prefix_v6;
      udp_global_byte_rate = cfg.xdp_udp_global_byte_rate;
      xdp_runtime_config = xdp_runtime_config cfg;
    }
