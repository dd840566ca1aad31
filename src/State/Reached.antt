-- ===== src/State/Reached.antt =====
-- What it means to carry out a plan of auto_xdp/state.py, and to have reached the wanted state.
use auto_xdp.Base.{
  IsDict, String, [], bool_key, contains, list_key, lookup, nat_key, none, option_key, pair_key,
  some, string_key, ℕ, ◌≡◌,
}
use auto_xdp.State.{AppliedState, Bytes, DesiredState, ReconcilePlan}
use auto_xdp.State.Plan.{SamePorts, change_acl, change_dict, change_set, written}

-- Every entry of the plan is carried out: additions and upserts, then removals. The two fields
-- that no plan touches stay.
abbrev pub carry_out : ReconcilePlan → AppliedState → AppliedState
carry_out plan a = record a {
  tcp_ports = change_set plan.tcp_ports_to_add plan.tcp_ports_to_remove a.tcp_ports;
  udp_ports = change_set plan.udp_ports_to_add plan.udp_ports_to_remove a.udp_ports;
  sctp_ports = change_set plan.sctp_ports_to_add plan.sctp_ports_to_remove a.sctp_ports;
  trusted_cidrs = change_set plan.trusted_cidrs_to_add plan.trusted_cidrs_to_remove a.trusted_cidrs;
  conntrack_entries =
      change_set plan.conntrack_entries_to_add plan.conntrack_entries_to_remove a.conntrack_entries;
  tcp_syn_rate_limits =
      change_dict plan.tcp_syn_rate_limits_to_upsert plan.tcp_syn_rate_limits_to_remove
        a.tcp_syn_rate_limits;
  tcp_syn_agg_rate_limits =
      change_dict plan.tcp_syn_agg_rate_limits_to_upsert plan.tcp_syn_agg_rate_limits_to_remove
        a.tcp_syn_agg_rate_limits;
  tcp_conn_limits =
      change_dict plan.tcp_conn_limits_to_upsert plan.tcp_conn_limits_to_remove a.tcp_conn_limits;
  tcp_conn_prefix_limits =
      change_dict plan.tcp_conn_prefix_limits_to_upsert plan.tcp_conn_prefix_limits_to_remove
        a.tcp_conn_prefix_limits;
  tcp_conn_port_limits =
      change_dict plan.tcp_conn_port_limits_to_upsert plan.tcp_conn_port_limits_to_remove
        a.tcp_conn_port_limits;
  udp_rate_limits =
      change_dict plan.udp_rate_limits_to_upsert plan.udp_rate_limits_to_remove a.udp_rate_limits;
  udp_agg_rate_limits =
      change_dict plan.udp_agg_rate_limits_to_upsert plan.udp_agg_rate_limits_to_remove
        a.udp_agg_rate_limits;
  acl_rules = change_acl plan.acl_rules_to_upsert plan.acl_rules_to_remove a.acl_rules;
  bogon_filter_enabled = written plan.bogon_filter_update a.bogon_filter_enabled;
  drop_events_enabled = written plan.drop_events_update a.drop_events_enabled;
  udp_global_byte_rate = written plan.udp_global_byte_rate_update a.udp_global_byte_rate;
}

-- The dicts of a wanted state list no key twice.
pub record IsDesired (d : DesiredState) : Type 0 where
  pub tcp_syn_rate_limits : IsDict d.tcp_syn_rate_limits
  pub tcp_syn_agg_rate_limits : IsDict d.tcp_syn_agg_rate_limits
  pub tcp_conn_limits : IsDict d.tcp_conn_limits
  pub tcp_conn_prefix_limits : IsDict d.tcp_conn_prefix_limits
  pub tcp_conn_port_limits : IsDict d.tcp_conn_port_limits
  pub udp_rate_limits : IsDict d.udp_rate_limits
  pub udp_agg_rate_limits : IsDict d.udp_agg_rate_limits
  pub acl_rules : IsDict d.acl_rules

-- What is in place is what is wanted, in every part that a plan can change.
pub record Agrees (d : DesiredState) (a : AppliedState) : Type 0 where
  pub tcp_ports : (x : ℕ) → contains x a.tcp_ports ≡ contains x d.tcp_ports
  pub udp_ports : (x : ℕ) → contains x a.udp_ports ≡ contains x d.udp_ports
  pub sctp_ports : (x : ℕ) → contains x a.sctp_ports ≡ contains x d.sctp_ports
  pub trusted_cidrs : (x : String) → contains x a.trusted_cidrs ≡ contains x d.trusted_cidrs
  pub conntrack_entries :
      (x : Bytes) → contains x a.conntrack_entries ≡ contains x d.conntrack_entries
  pub tcp_syn_rate_limits :
      (i : ℕ) → lookup i a.tcp_syn_rate_limits ≡ lookup i d.tcp_syn_rate_limits
  pub tcp_syn_agg_rate_limits :
      (i : ℕ) → lookup i a.tcp_syn_agg_rate_limits ≡ lookup i d.tcp_syn_agg_rate_limits
  pub tcp_conn_limits : (i : ℕ) → lookup i a.tcp_conn_limits ≡ lookup i d.tcp_conn_limits
  pub tcp_conn_prefix_limits :
      (i : ℕ) → lookup i a.tcp_conn_prefix_limits ≡ lookup i d.tcp_conn_prefix_limits
  pub tcp_conn_port_limits :
      (i : ℕ) → lookup i a.tcp_conn_port_limits ≡ lookup i d.tcp_conn_port_limits
  pub udp_rate_limits : (i : ℕ) → lookup i a.udp_rate_limits ≡ lookup i d.udp_rate_limits
  pub udp_agg_rate_limits :
      (i : ℕ) → lookup i a.udp_agg_rate_limits ≡ lookup i d.udp_agg_rate_limits
  pub acl_rules : (i : String × String) → SamePorts (lookup i a.acl_rules) (lookup i d.acl_rules)
  pub bogon_filter_enabled : a.bogon_filter_enabled ≡ some d.bogon_filter_enabled
  pub drop_events_enabled : a.drop_events_enabled ≡ some d.drop_events_enabled
  pub udp_global_byte_rate : a.udp_global_byte_rate ≡ some d.udp_global_byte_rate

abbrev pub empty_plan : ReconcilePlan
empty_plan = record {
  tcp_ports_to_add = [];
  tcp_ports_to_remove = [];
  udp_ports_to_add = [];
  udp_ports_to_remove = [];
  sctp_ports_to_add = [];
  sctp_ports_to_remove = [];
  trusted_cidrs_to_add = [];
  trusted_cidrs_to_remove = [];
  conntrack_entries_to_add = [];
  conntrack_entries_to_remove = [];
  tcp_syn_rate_limits_to_upsert = [];
  tcp_syn_rate_limits_to_remove = [];
  tcp_syn_agg_rate_limits_to_upsert = [];
  tcp_syn_agg_rate_limits_to_remove = [];
  tcp_conn_limits_to_upsert = [];
  tcp_conn_limits_to_remove = [];
  tcp_conn_prefix_limits_to_upsert = [];
  tcp_conn_prefix_limits_to_remove = [];
  tcp_conn_port_limits_to_upsert = [];
  tcp_conn_port_limits_to_remove = [];
  udp_rate_limits_to_upsert = [];
  udp_rate_limits_to_remove = [];
  udp_agg_rate_limits_to_upsert = [];
  udp_agg_rate_limits_to_remove = [];
  acl_rules_to_upsert = [];
  acl_rules_to_remove = [];
  bogon_filter_update = none;
  drop_events_update = none;
  udp_global_byte_rate_update = none;
}
