-- ===== src/State/Carry.antt =====
-- `compute_reconcile_plan` against the meaning of a plan: what a backend has in place after every
-- entry of the plan was carried out.
use auto_xdp.Base.{
  Key, List, ap, bool_key, contains, list_key, nat_key, option_key, pair_key, string_key, sym, true,
  ◌∙◌, ◌≡◌,
}
use auto_xdp.State.{AppliedState, DesiredState, compute_reconcile_plan, flag_update, rate_update}
use auto_xdp.State.Plan.{
  acl_removals_nil, acl_upserts_nil, change_acl-SamePorts, contains-change_set, dict_removals_nil,
  dict_upserts_nil, difference_nil, flag_update-none, lookup-change_dict, rate_update-none,
  written-flag_update, written-rate_update,
}
use auto_xdp.State.Reached.{Agrees, IsDesired, carry_out, empty_plan}

-- For every wanted state whose dicts list no key twice and every state in place, carrying out the
-- computed plan makes what is in place agree with what is wanted: the port, trust and conntrack
-- sets, the seven limit tables, the ACL rules, the two switches and the global UDP rate.
pub carry_out_plan-Agrees :
    (d : DesiredState) (a : AppliedState)
    → IsDesired d
    → Agrees d (carry_out (compute_reconcile_plan d a) a)
unfolding compute_reconcile_plan
carry_out_plan-Agrees d a u = record {
  tcp_ports = λ x. contains-change_set x d.tcp_ports a.tcp_ports;
  udp_ports = λ x. contains-change_set x d.udp_ports a.udp_ports;
  sctp_ports = λ x. contains-change_set x d.sctp_ports a.sctp_ports;
  trusted_cidrs = λ x. contains-change_set x d.trusted_cidrs a.trusted_cidrs;
  conntrack_entries = λ x. contains-change_set x d.conntrack_entries a.conntrack_entries;
  tcp_syn_rate_limits =
      λ i. lookup-change_dict i d.tcp_syn_rate_limits a.tcp_syn_rate_limits u.tcp_syn_rate_limits;
  tcp_syn_agg_rate_limits = λ i.
      lookup-change_dict i d.tcp_syn_agg_rate_limits a.tcp_syn_agg_rate_limits
        u.tcp_syn_agg_rate_limits;
  tcp_conn_limits = λ i. lookup-change_dict i d.tcp_conn_limits a.tcp_conn_limits u.tcp_conn_limits;
  tcp_conn_prefix_limits = λ i.
      lookup-change_dict i d.tcp_conn_prefix_limits a.tcp_conn_prefix_limits
        u.tcp_conn_prefix_limits;
  tcp_conn_port_limits = λ i.
      lookup-change_dict i d.tcp_conn_port_limits a.tcp_conn_port_limits u.tcp_conn_port_limits;
  udp_rate_limits = λ i. lookup-change_dict i d.udp_rate_limits a.udp_rate_limits u.udp_rate_limits;
  udp_agg_rate_limits =
      λ i. lookup-change_dict i d.udp_agg_rate_limits a.udp_agg_rate_limits u.udp_agg_rate_limits;
  acl_rules = λ i. change_acl-SamePorts i d.acl_rules a.acl_rules u.acl_rules;
  bogon_filter_enabled = written-flag_update a.bogon_filter_enabled d.bogon_filter_enabled;
  drop_events_enabled = written-flag_update a.drop_events_enabled d.drop_events_enabled;
  udp_global_byte_rate = written-rate_update a.udp_global_byte_rate d.udp_global_byte_rate;
}

subset_of_eq {ℓ} :
    {K : Type ℓ} ⦃k : Key K⦄ (a b : List K)
    → ((x : K) → contains x a ≡ contains x b)
    → (x : K) → contains x a ≡ true
    → contains x b ≡ true
subset_of_eq a b h x m = sym (h x) ∙ m

subset_of_eq_sym {ℓ} :
    {K : Type ℓ} ⦃k : Key K⦄ (a b : List K)
    → ((x : K) → contains x a ≡ contains x b)
    → (x : K) → contains x b ≡ true
    → contains x a ≡ true
subset_of_eq_sym a b h x m = h x ∙ m

-- Where what is in place agrees with what is wanted, the computed plan is empty in all its parts.
-- So the plan after a completed one changes nothing.
pub compute_reconcile_plan-Agrees :
    (d : DesiredState) (a : AppliedState)
    → IsDesired d
    → Agrees d a
    → compute_reconcile_plan d a ≡ empty_plan
unfolding compute_reconcile_plan
compute_reconcile_plan-Agrees d a u h = λ i. record {
  tcp_ports_to_add =
      difference_nil d.tcp_ports a.tcp_ports (subset_of_eq_sym a.tcp_ports d.tcp_ports h.tcp_ports)
        i;
  tcp_ports_to_remove =
      difference_nil a.tcp_ports d.tcp_ports (subset_of_eq a.tcp_ports d.tcp_ports h.tcp_ports) i;
  udp_ports_to_add =
      difference_nil d.udp_ports a.udp_ports (subset_of_eq_sym a.udp_ports d.udp_ports h.udp_ports)
        i;
  udp_ports_to_remove =
      difference_nil a.udp_ports d.udp_ports (subset_of_eq a.udp_ports d.udp_ports h.udp_ports) i;
  sctp_ports_to_add =
      difference_nil d.sctp_ports a.sctp_ports
        (subset_of_eq_sym a.sctp_ports d.sctp_ports h.sctp_ports) i;
  sctp_ports_to_remove =
      difference_nil a.sctp_ports d.sctp_ports (subset_of_eq a.sctp_ports d.sctp_ports h.sctp_ports)
        i;
  trusted_cidrs_to_add =
      difference_nil d.trusted_cidrs a.trusted_cidrs
        (subset_of_eq_sym a.trusted_cidrs d.trusted_cidrs h.trusted_cidrs) i;
  trusted_cidrs_to_remove =
      difference_nil a.trusted_cidrs d.trusted_cidrs
        (subset_of_eq a.trusted_cidrs d.trusted_cidrs h.trusted_cidrs) i;
  conntrack_entries_to_add =
      difference_nil d.conntrack_entries a.conntrack_entries
        (subset_of_eq_sym a.conntrack_entries d.conntrack_entries h.conntrack_entries) i;
  conntrack_entries_to_remove =
      difference_nil a.conntrack_entries d.conntrack_entries
        (subset_of_eq a.conntrack_entries d.conntrack_entries h.conntrack_entries) i;
  tcp_syn_rate_limits_to_upsert =
      dict_upserts_nil d.tcp_syn_rate_limits a.tcp_syn_rate_limits u.tcp_syn_rate_limits
        h.tcp_syn_rate_limits i;
  tcp_syn_rate_limits_to_remove =
      dict_removals_nil d.tcp_syn_rate_limits a.tcp_syn_rate_limits h.tcp_syn_rate_limits i;
  tcp_syn_agg_rate_limits_to_upsert =
      dict_upserts_nil d.tcp_syn_agg_rate_limits a.tcp_syn_agg_rate_limits u.tcp_syn_agg_rate_limits
        h.tcp_syn_agg_rate_limits i;
  tcp_syn_agg_rate_limits_to_remove =
      dict_removals_nil d.tcp_syn_agg_rate_limits a.tcp_syn_agg_rate_limits
        h.tcp_syn_agg_rate_limits i;
  tcp_conn_limits_to_upsert =
      dict_upserts_nil d.tcp_conn_limits a.tcp_conn_limits u.tcp_conn_limits h.tcp_conn_limits i;
  tcp_conn_limits_to_remove =
      dict_removals_nil d.tcp_conn_limits a.tcp_conn_limits h.tcp_conn_limits i;
  tcp_conn_prefix_limits_to_upsert =
      dict_upserts_nil d.tcp_conn_prefix_limits a.tcp_conn_prefix_limits u.tcp_conn_prefix_limits
        h.tcp_conn_prefix_limits i;
  tcp_conn_prefix_limits_to_remove =
      dict_removals_nil d.tcp_conn_prefix_limits a.tcp_conn_prefix_limits h.tcp_conn_prefix_limits
        i;
  tcp_conn_port_limits_to_upsert =
      dict_upserts_nil d.tcp_conn_port_limits a.tcp_conn_port_limits u.tcp_conn_port_limits
        h.tcp_conn_port_limits i;
  tcp_conn_port_limits_to_remove =
      dict_removals_nil d.tcp_conn_port_limits a.tcp_conn_port_limits h.tcp_conn_port_limits i;
  udp_rate_limits_to_upsert =
      dict_upserts_nil d.udp_rate_limits a.udp_rate_limits u.udp_rate_limits h.udp_rate_limits i;
  udp_rate_limits_to_remove =
      dict_removals_nil d.udp_rate_limits a.udp_rate_limits h.udp_rate_limits i;
  udp_agg_rate_limits_to_upsert =
      dict_upserts_nil d.udp_agg_rate_limits a.udp_agg_rate_limits u.udp_agg_rate_limits
        h.udp_agg_rate_limits i;
  udp_agg_rate_limits_to_remove =
      dict_removals_nil d.udp_agg_rate_limits a.udp_agg_rate_limits h.udp_agg_rate_limits i;
  acl_rules_to_upsert = acl_upserts_nil d.acl_rules a.acl_rules u.acl_rules h.acl_rules i;
  acl_rules_to_remove = acl_removals_nil d.acl_rules a.acl_rules h.acl_rules i;
  bogon_filter_update =
      (ap (λ c. flag_update c d.bogon_filter_enabled) h.bogon_filter_enabled
          ∙ flag_update-none d.bogon_filter_enabled)
        i;
  drop_events_update =
      (ap (λ c. flag_update c d.drop_events_enabled) h.drop_events_enabled
          ∙ flag_update-none d.drop_events_enabled)
        i;
  udp_global_byte_rate_update =
      (ap (λ c. rate_update c d.udp_global_byte_rate) h.udp_global_byte_rate
          ∙ rate_update-none d.udp_global_byte_rate)
        i;
}
