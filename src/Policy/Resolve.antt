-- ===== src/Policy/Resolve.antt =====
-- The wanted state as a whole: which ports are listed where, and the ACL rules.
use auto_xdp.Base.{
  Bool, Bool-cases, Dict, IsDict, List, Option, String, [], arith, bool_key, contains,
  contains-keys, contains-union, dict_for-IsDict, filter_items, if◌then◌else◌, inl, inr, insert,
  insert-IsDict, is_some, keys, list_key, lookup, lookup-dict_for, lookup-filter_items,
  lookup-insert, ltb, nat_key, none, not, option_key, or_else, pair_key, refl, some, string_key, ℕ,
  ◌&&◌, ◌==◌, ◌||◌, ◌∷◌, ◌≡◌,
}
use auto_xdp.Config.{AclRule, Config, Float, Services}
use auto_xdp.Policy.{
  acl_rules_from, all_ports, desired_acl_rules, port_rate_limit, process_of, rate_map_entries,
  resolve_desired_state, resolve_map_entries, resolve_port_limits, syn_aggregate_rate_limit,
  tcp_conn_limit, tcp_conn_port_limit, tcp_conn_prefix_limit, udp_aggregate_byte_limit,
  udp_port_rate_limit,
}
use auto_xdp.State.{AclRules, ObservedState}
use auto_xdp.State.Reached.{IsDesired}

module _ (services : Services) {F : Float} (cfg : Config F) (o : ObservedState) where
  -- the entry of a limit table: the resolver's value for a listed port, and nothing otherwise
  abbrev pub entry : List ℕ → Dict ℕ String → (ℕ → String → ℕ) → ℕ → Option ℕ
  entry ports names resolver p =
      if contains p ports then some (resolver p (process_of names p)) else none

  lookup-resolve_port_limits :
      (ports : List ℕ) (names : Dict ℕ String) (resolver : ℕ → String → ℕ) (p : ℕ)
      → lookup p (resolve_port_limits ports names resolver) ≡ entry ports names resolver p
  unfolding resolve_port_limits
  lookup-resolve_port_limits ports names resolver p =
      lookup-dict_for (λ port. resolver port (process_of names port)) p ports

  -- The wanted TCP, UDP and SCTP ports are those observed and the permanent ones, and no other.
  -- Each of the five TCP and two UDP tables has an entry for exactly the wanted ports of its
  -- protocol, with the value that its resolver gives for the port's process, zero included.
  pub resolve_desired_state-tables :
      (p : ℕ)
      → let d = resolve_desired_state services cfg o in
        let tcp = λ (f : ℕ → String → ℕ). entry d.tcp_ports o.tcp_processes f p in
        let udp = λ (f : ℕ → String → ℕ). entry d.udp_ports o.udp_processes f p in
        (contains p d.tcp_ports ≡ (contains p o.tcp || is_some (lookup p cfg.tcp_permanent)))
        × (contains p d.udp_ports ≡ (contains p o.udp || is_some (lookup p cfg.udp_permanent)))
        × (contains p d.sctp_ports ≡ (contains p o.sctp || is_some (lookup p cfg.sctp_permanent)))
        × (lookup p d.tcp_syn_rate_limits ≡ tcp (port_rate_limit services cfg))
        × (lookup p d.tcp_syn_agg_rate_limits ≡ tcp (syn_aggregate_rate_limit services cfg))
        × (lookup p d.tcp_conn_limits ≡ tcp (tcp_conn_limit services cfg))
        × (lookup p d.tcp_conn_prefix_limits ≡ tcp (tcp_conn_prefix_limit services cfg))
        × (lookup p d.tcp_conn_port_limits ≡ tcp (tcp_conn_port_limit services cfg))
        × (lookup p d.udp_rate_limits ≡ udp (udp_port_rate_limit services cfg))
        × (lookup p d.udp_agg_rate_limits ≡ udp (udp_aggregate_byte_limit services cfg))
  unfolding resolve_desired_state
  resolve_desired_state-tables p = (
    ports o.tcp cfg.tcp_permanent,
    ports o.udp cfg.udp_permanent,
    ports o.sctp cfg.sctp_permanent,
    lookup-resolve_port_limits (all_ports o.tcp cfg.tcp_permanent) o.tcp_processes
        (port_rate_limit services cfg) p,
    lookup-resolve_port_limits (all_ports o.tcp cfg.tcp_permanent) o.tcp_processes
        (syn_aggregate_rate_limit services cfg) p,
    lookup-resolve_port_limits (all_ports o.tcp cfg.tcp_permanent) o.tcp_processes
        (tcp_conn_limit services cfg) p,
    lookup-resolve_port_limits (all_ports o.tcp cfg.tcp_permanent) o.tcp_processes
        (tcp_conn_prefix_limit services cfg) p,
    lookup-resolve_port_limits (all_ports o.tcp cfg.tcp_permanent) o.tcp_processes
        (tcp_conn_port_limit services cfg) p,
    lookup-resolve_port_limits (all_ports o.udp cfg.udp_permanent) o.udp_processes
        (udp_port_rate_limit services cfg) p,
    lookup-resolve_port_limits (all_ports o.udp cfg.udp_permanent) o.udp_processes
        (udp_aggregate_byte_limit services cfg) p,
  )
    where
      ports :
          (seen : List ℕ) (permanent : Dict ℕ String)
          → contains p (all_ports seen permanent)
            ≡ (contains p seen || is_some (lookup p permanent))
      ports seen permanent =
          ground (arith, contains-union p seen (keys permanent), contains-keys p permanent)

  -- the entry of a capacity table: there is one exactly when the port has a rate above zero
  abbrev pub map_capacity : Option ℕ → Dict ℕ String → ℕ → Option ℕ
  map_capacity none names p = none
  map_capacity (some rate) names p =
      if ltb 0 rate then some (rate_map_entries services cfg p (process_of names p)) else none

  lookup-resolve_map_entries :
      (limits : Dict ℕ ℕ) (names : Dict ℕ String) (p : ℕ)
      → IsDict limits
      → lookup p (resolve_map_entries limits names (rate_map_entries services cfg))
        ≡ map_capacity (lookup p limits) names p
  unfolding resolve_map_entries
  lookup-resolve_map_entries limits names p u =
      let positive : ℕ → ℕ → Bool = λ port rate. ltb 0 rate in
      ground (
        arith,
        lookup-dict_for (λ port. rate_map_entries services cfg port (process_of names port)) p
            (keys (filter_items positive limits)),
        contains-keys p (filter_items positive limits),
        lookup-filter_items positive p limits u,
      )

  limits-IsDict :
      (ports : List ℕ) (names : Dict ℕ String) (resolver : ℕ → String → ℕ)
      → IsDict (resolve_port_limits ports names resolver)
  unfolding resolve_port_limits
  limits-IsDict ports names resolver =
      dict_for-IsDict (λ port. resolver port (process_of names port)) ports

  -- A port gets a rate map of its own exactly when its SYN rate (TCP) or packet rate (UDP) is above
  -- zero, and its capacity is the one that the policy gives for the port and its process.
  pub resolve_desired_state-capacities :
      (p : ℕ)
      → let d = resolve_desired_state services cfg o in
        (lookup p d.tcp_rate_map_entries
          ≡ map_capacity (lookup p d.tcp_syn_rate_limits) o.tcp_processes p)
        × (lookup p d.udp_rate_map_entries
            ≡ map_capacity (lookup p d.udp_rate_limits) o.udp_processes p)
  unfolding resolve_desired_state
  resolve_desired_state-capacities p = (
    lookup-resolve_map_entries
        (resolve_port_limits (all_ports o.tcp cfg.tcp_permanent) o.tcp_processes
          (port_rate_limit services cfg))
        o.tcp_processes p
        (limits-IsDict (all_ports o.tcp cfg.tcp_permanent) o.tcp_processes
          (port_rate_limit services cfg)),
    lookup-resolve_map_entries
        (resolve_port_limits (all_ports o.udp cfg.udp_permanent) o.udp_processes
          (udp_port_rate_limit services cfg))
        o.udp_processes p
        (limits-IsDict (all_ports o.udp cfg.udp_permanent) o.udp_processes
          (udp_port_rate_limit services cfg)),
  )

-- The ports that the last rule for a key lists, among the rules that list any.
abbrev pub last_ports : String × String → List AclRule → Option (List ℕ)
last_ports key [] = none
last_ports key (rule ∷ rules) =
    or_else (last_ports key rules)
      (if (rule.proto, rule.cidr) == key && not (rule.ports == []) then some rule.ports else none)

lookup-acl_rules_from :
    (key : String × String) (desired : AclRules) (rules : List AclRule)
    → lookup key (acl_rules_from desired rules)
      ≡ or_else (last_ports key rules) (lookup key desired)
unfolding acl_rules_from
lookup-acl_rules_from key desired [] = refl
lookup-acl_rules_from key desired (rule ∷ rules) = elim (Bool-cases (rule.ports == [])) [
  | inl empty ↦ rw (empty, lookup-acl_rules_from key desired rules) (ground arith)
  | inr full ↦
      rw
        (
          full,
          lookup-acl_rules_from key (insert (rule.proto, rule.cidr) rule.ports desired) rules,
          lookup-insert key (rule.proto, rule.cidr) rule.ports desired,
        )
        (ground arith)
]

acl_rules_from-IsDict :
    (desired : AclRules) (rules : List AclRule)
    → IsDict desired
    → IsDict (acl_rules_from desired rules)
unfolding acl_rules_from
acl_rules_from-IsDict desired [] h = h
acl_rules_from-IsDict desired (rule ∷ rules) h = elim (Bool-cases (rule.ports == [])) [
  | inl empty ↦ rw empty (acl_rules_from-IsDict desired rules h)
  | inr full ↦ rw full (
      acl_rules_from-IsDict (insert (rule.proto, rule.cidr) rule.ports desired) rules
        (insert-IsDict (rule.proto, rule.cidr) rule.ports desired h))
]

-- For each protocol and network the wanted ACL entry is the ports of the last rule for them that
-- lists any port, and there is none where no rule lists one.
pub lookup-desired_acl_rules :
    {F : Float} (cfg : Config F) (key : String × String)
    → lookup key (desired_acl_rules cfg) ≡ last_ports key cfg.acl_rules
unfolding desired_acl_rules lookup
lookup-desired_acl_rules cfg key = ground (arith, lookup-acl_rules_from key [] cfg.acl_rules)

-- Every table of the resolved state lists each key once.
pub resolve_desired_state-IsDesired :
    (services : Services) {F : Float} (cfg : Config F) (o : ObservedState)
    → IsDesired (resolve_desired_state services cfg o)
unfolding resolve_desired_state desired_acl_rules
resolve_desired_state-IsDesired services cfg o = record {
  tcp_syn_rate_limits =
      limits-IsDict services cfg o (all_ports o.tcp cfg.tcp_permanent) o.tcp_processes
        (port_rate_limit services cfg);
  tcp_syn_agg_rate_limits =
      limits-IsDict services cfg o (all_ports o.tcp cfg.tcp_permanent) o.tcp_processes
        (syn_aggregate_rate_limit services cfg);
  tcp_conn_limits =
      limits-IsDict services cfg o (all_ports o.tcp cfg.tcp_permanent) o.tcp_processes
        (tcp_conn_limit services cfg);
  tcp_conn_prefix_limits =
      limits-IsDict services cfg o (all_ports o.tcp cfg.tcp_permanent) o.tcp_processes
        (tcp_conn_prefix_limit services cfg);
  tcp_conn_port_limits =
      limits-IsDict services cfg o (all_ports o.tcp cfg.tcp_permanent) o.tcp_processes
        (tcp_conn_port_limit services cfg);
  udp_rate_limits =
      limits-IsDict services cfg o (all_ports o.udp cfg.udp_permanent) o.udp_processes
        (udp_port_rate_limit services cfg);
  udp_agg_rate_limits =
      limits-IsDict services cfg o (all_ports o.udp cfg.udp_permanent) o.udp_processes
        (udp_aggregate_byte_limit services cfg);
  acl_rules = acl_rules_from-IsDict [] cfg.acl_rules tt;
}
