-- ===== src/Examples/Policies.antt =====
-- The policy of auto_xdp/policy.py for the sample configuration.
use auto_xdp.Base.{
  String, add, bool_key, contains, dict_for, get_or, if◌then◌else◌, insert, is_some, keys, list_key,
  lookup, nat_key, none, option_key, pair_key, refl, some, string_key, union, ℕ, ◌||◌, ◌≡◌,
}
use auto_xdp.Config.{service_name}
use auto_xdp.Policy.{
  explicit_lookup, is_sensitive, port_rate_limit, resolve_desired_state, resolve_port_limits,
  syn_aggregate_rate_limit, tcp_conn_limit, tcp_conn_port_limit, tcp_conn_prefix_limit, truthy,
  udp_aggregate_byte_limit, udp_port_rate_limit,
}
use auto_xdp.Policy.Resolve.{entry, resolve_desired_state-tables}
use auto_xdp.Policy.Tiers.{IsMarked, port_rate_limit_tiers}
use auto_xdp.Samples.{sample_config, sample_observed, sample_services}
use auto_xdp.State.{DesiredState}

-- port 22 is marked by the rate of ssh
port_rate_limit_tiers_example :
    (IsMarked sample_services sample_config 22 "sshd"
      → port_rate_limit sample_services sample_config 22 "sshd" ≡ 2)
    × (¬ IsMarked sample_services sample_config 22 "sshd"
        → port_rate_limit sample_services sample_config 22 "sshd"
          ≡ get_or
              (let svc = service_name sample_services 22 "tcp" in
                if truthy svc then lookup svc sample_config.syn_rate.by_service else none)
              0)
unfolding lookup
port_rate_limit_tiers_example = port_rate_limit_tiers sample_services sample_config 22 "sshd" refl

abbrev resolved : DesiredState
resolved = resolve_desired_state sample_services sample_config sample_observed

-- the test run: port 443 has the rate of nginx, port 22 the strict default
resolved_rates :
    (lookup 443 resolved.tcp_syn_rate_limits ≡ some 400)
    × (lookup 22 resolved.tcp_syn_rate_limits ≡ some 2)
unfolding lookup resolve_desired_state resolve_port_limits dict_for insert union add contains keys
    port_rate_limit is_sensitive service_name explicit_lookup
resolved_rates = (refl, refl)

resolve_desired_state-tables_example :
    let tcp = λ (f : ℕ → String → ℕ).
      entry sample_services sample_config sample_observed resolved.tcp_ports
        sample_observed.tcp_processes f 22 in
    let udp = λ (f : ℕ → String → ℕ).
      entry sample_services sample_config sample_observed resolved.udp_ports
        sample_observed.udp_processes f 22 in
    (contains 22 resolved.tcp_ports
      ≡ (contains 22 sample_observed.tcp || is_some (lookup 22 sample_config.tcp_permanent)))
    × (contains 22 resolved.udp_ports
        ≡ (contains 22 sample_observed.udp || is_some (lookup 22 sample_config.udp_permanent)))
    × (contains 22 resolved.sctp_ports
        ≡ (contains 22 sample_observed.sctp || is_some (lookup 22 sample_config.sctp_permanent)))
    × (lookup 22 resolved.tcp_syn_rate_limits ≡ tcp (port_rate_limit sample_services sample_config))
    × (lookup 22 resolved.tcp_syn_agg_rate_limits
        ≡ tcp (syn_aggregate_rate_limit sample_services sample_config))
    × (lookup 22 resolved.tcp_conn_limits ≡ tcp (tcp_conn_limit sample_services sample_config))
    × (lookup 22 resolved.tcp_conn_prefix_limits
        ≡ tcp (tcp_conn_prefix_limit sample_services sample_config))
    × (lookup 22 resolved.tcp_conn_port_limits
        ≡ tcp (tcp_conn_port_limit sample_services sample_config))
    × (lookup 22 resolved.udp_rate_limits ≡ udp (udp_port_rate_limit sample_services sample_config))
    × (lookup 22 resolved.udp_agg_rate_limits
        ≡ udp (udp_aggregate_byte_limit sample_services sample_config))
resolve_desired_state-tables_example =
    resolve_desired_state-tables sample_services sample_config sample_observed 22
