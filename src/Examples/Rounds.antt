-- ===== src/Examples/Rounds.antt =====
-- Rounds of auto_xdp/backends/xdp.py on the sample backend, where port 80 is open and ports 443
-- and 53 are wanted.
use auto_xdp.Bpf.ArrayMap
use auto_xdp.Bpf.Conntrack
use auto_xdp.Bpf.LpmMap
use auto_xdp.Bpf.PortPolicy
use auto_xdp.Base.{
  ==_iff, Bool, Option, [], add, arith, bool_key, contains, difference, discard, erase, erase_all,
  false, filter, filter_items, get_or, if◌then◌else◌, insert, is_some, keys, leb, list_key, lookup,
  nat_key, none, not, option_key, pair_key, place, refl, some, some-get_or, sort, string_key, subst,
  true, union, ℕ, ◌&&◌, ◌+◌, ◌==◌, ◌∷◌, ◌≡◌,
}
use auto_xdp.Backend.{Backend, build_reconcile_plan, cfg_flag, count_misses, get_applied_state}
use auto_xdp.Backend.Agreement.{reconcile_reaches_ports}
use auto_xdp.Backend.Apply.{
  apply_reconcile_plan, close_tcp, close_udp, expire_flows, expose, prefixed, protect, reconcile,
  seed_flows, sync_policies, sync_prefixes, sync_rate_outers, sync_sctp_and_trust, sync_settings,
  tcp_limits_delta, udp_limits_delta,
}
use auto_xdp.Backend.DryRun.{dry_run_changes_nothing}
use auto_xdp.Backend.Exposure.{new_ports_are_protected, over_tcp, ports_to_add, whitelist}
use auto_xdp.Backend.Phases.{flow_loop, rate_map_delta, trusted_delta, write_ports}
use auto_xdp.Backend.Reads.{written_maps}
use auto_xdp.Backend.Stale.{NoRepeat, removed_after_misses}
use auto_xdp.Backend.Total.{AreFlows, reconcile_returns}
use auto_xdp.Bpf.ArrayMap.{ArrayMap}
use auto_xdp.Bpf.ConntrackMaps.{
  active_flows, close_flows, delete_flow, existing_flows, pick_map, set_flow,
}
use auto_xdp.Bpf.Kernel.{sweep}
use auto_xdp.Bpf.LpmMap.{LpmMap}
use auto_xdp.Samples.{sample_backend, sample_config, sample_desired, sample_flow, sample_kernels}
use auto_xdp.State.{
  Bytes, ReconcilePlan, acl_upserts, compute_reconcile_plan, dict_removals, dict_upserts,
  flag_update, rate_update,
}

abbrev clock : Bytes → ℕ
clock key = 1000

abbrev round : Bool → Option (Backend sample_kernels)
round dry_run = reconcile sample_kernels sample_config clock sample_desired dry_run sample_backend

abbrev after : Bool → Backend sample_kernels
after dry_run = get_or (round dry_run) sample_backend

abbrev plan : ReconcilePlan
plan = compute_reconcile_plan sample_desired (get_applied_state sample_kernels sample_backend).0

abbrev prepared : Backend sample_kernels
prepared =
    get_or (protect sample_kernels sample_config clock plan sample_desired false sample_backend)
      sample_backend

abbrev applied_plan : Backend sample_kernels
applied_plan =
    get_or
      (apply_reconcile_plan sample_kernels sample_config clock plan sample_desired false
        sample_backend)
      sample_backend

-- the test run of a round: it returns, no update fails, and exactly the wanted ports are open
round_opens :
    (round false ≡ some (after false))
    × ((after false).last_apply_failures ≡ 0)
    × ((after false).tcp_map.cache ≡ 443 ∷ [])
    × ((after false).udp_map.cache ≡ 53 ∷ [])
unfolding reconcile apply_reconcile_plan protect seed_flows expire_flows flow_loop
    build_reconcile_plan difference filter count_misses compute_reconcile_plan get_applied_state
    active_flows union add contains lookup erase_all erase insert keys close_tcp close_udp
    sync_sctp_and_trust sync_policies sync_rate_outers sync_prefixes sync_settings expose
    tcp_limits_delta udp_limits_delta rate_map_delta trusted_delta write_ports sweep sort place
    existing_flows close_flows Conntrack.existing_keys Conntrack.delete_dest_ports
    Conntrack.delete_each Conntrack.delete Conntrack.dest_port ArrayMap.set ArrayMap.active_ports
    PortPolicy.view_set PortPolicy.view_delete PortPolicy.store PortPolicy.delete
    PortPolicy.set_fields PortPolicy.set_field PortPolicy.get_field PortPolicy.active
    PortPolicy.view_items PortPolicy.ensure_prefixes PortPolicy.ensure_prefix prefixed dict_upserts
    dict_removals filter_items acl_upserts flag_update rate_update LpmMap.trusted_active_keys
    LpmMap.trusted_set LpmMap.trusted_delete discard pick_map set_flow delete_flow cfg_flag
round_opens = (refl, refl, refl, refl)

flows_are_known : AreFlows (active_flows sample_kernels.flows sample_backend.conntrack_map)
unfolding active_flows union add contains pick_map
flows_are_known key m =
    let same : (sample_flow 80 == key) ≡ true = ground arith in
    subst (λ f. is_some (pick_map f) ≡ true) ((==_iff (sample_flow 80) key).0 same) refl

flows_are_distinct : NoRepeat (active_flows sample_kernels.flows sample_backend.conntrack_map)
unfolding active_flows union add contains
flows_are_distinct = (refl, tt)

nothing_observed : AreFlows sample_desired.conntrack_entries
unfolding contains
nothing_observed key m = absurd (cc)

round_returns : (dry_run : Bool) → round dry_run ≡ some (after dry_run)
round_returns dry_run = some-get_or (round dry_run) sample_backend (
    reconcile_returns sample_kernels sample_config clock sample_desired dry_run sample_backend
      nothing_observed flows_are_known flows_are_distinct)

reconcile_reaches_ports_example :
    (contains 443 (after false).tcp_map.cache ≡ contains 443 sample_desired.tcp_ports)
    × (contains 443 (after false).udp_map.cache ≡ contains 443 sample_desired.udp_ports)
reconcile_reaches_ports_example =
    reconcile_reaches_ports sample_kernels sample_config clock sample_desired sample_backend
      (after false) (round_returns false) round_opens.1 443

dry_run_changes_nothing_example :
    (written_maps (after true) ≡ written_maps sample_backend)
    × ((after true).conntrack_stale_rounds ≡ sample_backend.conntrack_stale_rounds)
    × ((after true).last_apply_failures ≡ 0)
dry_run_changes_nothing_example =
    dry_run_changes_nothing sample_kernels sample_config clock sample_desired sample_backend
      (after true) (round_returns true)

-- the flow to port 80 is missed for the second time, which is the configured number of rounds
removed_after_misses_example :
    let (planned, b') =
      build_reconcile_plan sample_kernels sample_config sample_desired
        (get_applied_state sample_kernels sample_backend).0
        sample_backend in
    let missed =
      contains
        (sample_flow 80)
        (get_applied_state sample_kernels sample_backend).0.conntrack_entries
      && not (contains (sample_flow 80) sample_desired.conntrack_entries) in
    let rounds = get_or (lookup (sample_flow 80) sample_backend.conntrack_stale_rounds) 0 + 1 in
    (contains (sample_flow 80) planned.conntrack_entries_to_remove ≡ (missed && leb 2 rounds))
    × (lookup (sample_flow 80) b'.conntrack_stale_rounds ≡ (if missed then some rounds else none))
unfolding get_applied_state
removed_after_misses_example =
    removed_after_misses sample_kernels sample_config sample_desired
      (get_applied_state sample_kernels sample_backend).0 sample_backend (sample_flow 80)
      flows_are_distinct

-- the plan of the round, prepared and carried out: port 443 is opened
plan_opens :
    (protect sample_kernels sample_config clock plan sample_desired false sample_backend
      ≡ some prepared)
    × (apply_reconcile_plan sample_kernels sample_config clock plan sample_desired false
          sample_backend
        ≡ some applied_plan)
    × (contains 443 (whitelist over_tcp sample_backend) ≡ false)
    × (contains 443 (whitelist over_tcp applied_plan) ≡ true)
unfolding reconcile apply_reconcile_plan protect seed_flows expire_flows flow_loop
    build_reconcile_plan difference filter count_misses compute_reconcile_plan get_applied_state
    active_flows union add contains lookup erase_all erase insert keys close_tcp close_udp
    sync_sctp_and_trust sync_policies sync_rate_outers sync_prefixes sync_settings expose
    tcp_limits_delta udp_limits_delta rate_map_delta trusted_delta write_ports sweep sort place
    existing_flows close_flows Conntrack.existing_keys Conntrack.delete_dest_ports
    Conntrack.delete_each Conntrack.delete Conntrack.dest_port ArrayMap.set ArrayMap.active_ports
    PortPolicy.view_set PortPolicy.view_delete PortPolicy.store PortPolicy.delete
    PortPolicy.set_fields PortPolicy.set_field PortPolicy.get_field PortPolicy.active
    PortPolicy.view_items PortPolicy.ensure_prefixes PortPolicy.ensure_prefix prefixed dict_upserts
    dict_removals filter_items acl_upserts flag_update rate_update LpmMap.trusted_active_keys
    LpmMap.trusted_set LpmMap.trusted_delete discard pick_map set_flow delete_flow cfg_flag
plan_opens = (refl, refl, refl, refl)

new_ports_are_protected_example :
    (prepared.last_apply_failures ≡ 0) × (contains 443 (ports_to_add over_tcp plan) ≡ true)
new_ports_are_protected_example =
    new_ports_are_protected sample_kernels sample_config over_tcp clock plan sample_desired false
      sample_backend prepared applied_plan 443 plan_opens.0 plan_opens.1 plan_opens.2 plan_opens.3
