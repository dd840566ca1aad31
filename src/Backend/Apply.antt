-- ===== src/Backend/Apply.antt =====
-- `XdpBackend.apply_reconcile_plan`, `reconcile` and `run_ct_gc` of auto_xdp/backends/xdp.py.
use auto_xdp.Bpf.PortPolicy
use auto_xdp.Base.{
  Bool, Dict, List, Option, [], bool_key, erase, if◌then◌else◌, keys, list_key, nat_key, none,
  option_key, pair_key, some, string_key, union, ℕ, ◌+◌, ◌==◌, ◌>>=◌, ◌∷◌,
}
use auto_xdp.Backend.{Backend, Kernels, build_reconcile_plan, get_applied_state}
use auto_xdp.Backend.Phases.{
  acl_delta, both, flow_loop, global_delta, over, rate_map_delta, rate_outer_delta, runtime_delta,
  sit4_delta, trusted_delta, write_ports,
}
use auto_xdp.Bpf.ConntrackMaps.{ConntrackMaps, close_flows, delete_flow, gc_flows, set_flow}
use auto_xdp.Bpf.Kernel.{Reply, done, fails}
use auto_xdp.Bpf.PortPolicy.{Field}
use auto_xdp.Config.{Config, Float}
use auto_xdp.Policy.{rate_map_entries_v6}
use auto_xdp.State.{Bytes, DesiredState, ReconcilePlan}

module _ (k : Kernels) {F : Float} (cfg : Config F) where
  -- the closed TCP ports, and the flows to them
  unfoldable pub close_tcp : ReconcilePlan → Bool → Backend k → Backend k
  close_tcp plan dry_run b =
      let (failures, m) = write_ports k cfg 0 plan.tcp_ports_to_remove dry_run b.tcp_map in
      let (deleted, flows) = close_flows k.flows plan.tcp_ports_to_remove dry_run b.conntrack_map in
      record b { last_apply_failures = failures; tcp_map = m; conntrack_map = flows }

  -- `now` is the time at which the entry of a flow is written
  unfoldable pub seed_flows : (Bytes → ℕ) → ReconcilePlan → Bool → Backend k → Option (Backend k)
  seed_flows now plan dry_run b = do
    (failures, flows, counts) ←
        flow_loop (λ key. set_flow k.flows (now key) key dry_run) erase
          plan.conntrack_entries_to_add (b.conntrack_map, b.conntrack_stale_rounds)
    some (record b {
      last_apply_failures = b.last_apply_failures + failures;
      conntrack_map = flows;
      conntrack_stale_rounds = counts;
    })

  unfoldable pub expire_flows : ReconcilePlan → Bool → Backend k → Option (Backend k)
  expire_flows plan dry_run b = do
    (failures, flows, counts) ←
        flow_loop (λ key. delete_flow k.flows key dry_run) erase plan.conntrack_entries_to_remove
          (b.conntrack_map, b.conntrack_stale_rounds)
    some (record b {
      last_apply_failures = b.last_apply_failures + failures;
      conntrack_map = flows;
      conntrack_stale_rounds = counts;
    })

  unfoldable pub close_udp : ReconcilePlan → Bool → Backend k → Backend k
  close_udp plan dry_run b =
      let (failures, m) = write_ports k cfg 0 plan.udp_ports_to_remove dry_run b.udp_map in
      let (deleted, flows) =
        close_flows k.flows plan.udp_ports_to_remove dry_run b.udp_conntrack_map in
      record b {
        last_apply_failures = b.last_apply_failures + failures;
        udp_map = m;
        udp_conntrack_map = flows;
      }

  -- the SCTP ports and the trusted networks
  unfoldable pub sync_sctp_and_trust : ReconcilePlan → Bool → Backend k → Backend k
  sync_sctp_and_trust plan dry_run b =
      let (failures, m) =
        over
          (both (write_ports k cfg 1 plan.sctp_ports_to_add dry_run)
            (write_ports k cfg 0 plan.sctp_ports_to_remove dry_run))
          b.sctp_map in
      let (more, t) = trusted_delta k cfg plan dry_run b.trusted_map in
      record b {
        last_apply_failures = b.last_apply_failures + failures + more;
        sctp_map = m;
        trusted_map = t;
      }

  unfoldable pub tcp_limits_delta :
      ReconcilePlan
      → Bool
      → PortPolicy.PortPolicyMap k.policies
      → ℕ × PortPolicy.PortPolicyMap k.policies
  tcp_limits_delta plan dry_run =
      both
        (rate_map_delta k cfg Field.rate_field plan.tcp_syn_rate_limits_to_upsert
          plan.tcp_syn_rate_limits_to_remove dry_run)
        (both
          (rate_map_delta k cfg Field.agg_rate_field plan.tcp_syn_agg_rate_limits_to_upsert
            plan.tcp_syn_agg_rate_limits_to_remove dry_run)
          (both
            (rate_map_delta k cfg Field.conn_field plan.tcp_conn_limits_to_upsert
              plan.tcp_conn_limits_to_remove dry_run)
            (both
              (rate_map_delta k cfg Field.conn_prefix_field plan.tcp_conn_prefix_limits_to_upsert
                plan.tcp_conn_prefix_limits_to_remove dry_run)
              (rate_map_delta k cfg Field.conn_port_field plan.tcp_conn_port_limits_to_upsert
                plan.tcp_conn_port_limits_to_remove dry_run))))

  unfoldable pub udp_limits_delta :
      ReconcilePlan
      → Bool
      → PortPolicy.PortPolicyMap k.policies
      → ℕ × PortPolicy.PortPolicyMap k.policies
  udp_limits_delta plan dry_run =
      both
        (rate_map_delta k cfg Field.rate_field plan.udp_rate_limits_to_upsert
          plan.udp_rate_limits_to_remove dry_run)
        (rate_map_delta k cfg Field.agg_rate_field plan.udp_agg_rate_limits_to_upsert
          plan.udp_agg_rate_limits_to_remove dry_run)

  -- the five views of the TCP policy map, then the two of the UDP policy map
  unfoldable pub sync_policies : ReconcilePlan → Bool → Backend k → Backend k
  unfolding tcp_limits_delta udp_limits_delta
  sync_policies plan dry_run b =
      let (failures, m) = over (tcp_limits_delta plan dry_run) b.tcp_policy_map in
      let (more, u) = over (udp_limits_delta plan dry_run) b.udp_policy_map in
      record b {
        last_apply_failures = b.last_apply_failures + failures + more;
        tcp_policy_map = m;
        udp_policy_map = u;
      }

  -- `{p: rate_map_entries_v6(c) for p, c in entries.items()}`
  abbrev pub entries_v6 : Dict ℕ ℕ → Dict ℕ ℕ
  entries_v6 [] = []
  entries_v6 ((port, entries) ∷ rest) = (port, rate_map_entries_v6 cfg entries) ∷ entries_v6 rest

  unfoldable pub sync_rate_outers : DesiredState → Bool → Backend k → Backend k
  sync_rate_outers desired dry_run b =
      let tcp_entries = desired.tcp_rate_map_entries in
      let udp_entries = desired.udp_rate_map_entries in
      let (n1, m1) = over (rate_outer_delta k cfg tcp_entries dry_run) b.syn4_outer in
      let (n2, m2) = over (rate_outer_delta k cfg (entries_v6 tcp_entries) dry_run) b.syn6_outer in
      let (n3, m3) = over (rate_outer_delta k cfg udp_entries dry_run) b.udprt4_outer in
      let (n4, m4) =
        over (rate_outer_delta k cfg (entries_v6 udp_entries) dry_run) b.udprt6_outer in
      record b {
        last_apply_failures = b.last_apply_failures + n1 + n2 + n3 + n4;
        syn4_outer = m1;
        syn6_outer = m2;
        udprt4_outer = m3;
        udprt6_outer = m4;
      }

  unfoldable pub prefixed :
      List ℕ
      → DesiredState
      → Bool
      → Option (PortPolicy.PortPolicyMap k.policies)
      → Option (PortPolicy.PortPolicyMap k.policies)
  prefixed policy_ports desired dry_run none = none
  prefixed policy_ports desired dry_run (some m) = some (
      PortPolicy.ensure_prefixes k.policies policy_ports desired.rate_limit_source_prefix_v4
        desired.rate_limit_source_prefix_v6 dry_run m)

  -- the source prefixes of every port that has a limit; failures are not counted here
  unfoldable pub sync_prefixes : DesiredState → Bool → Backend k → Backend k
  unfolding prefixed
  sync_prefixes desired dry_run b =
      let tcp_policy_ports = union (keys desired.tcp_syn_rate_limits) (
        union (keys desired.tcp_syn_agg_rate_limits) (
          union (keys desired.tcp_conn_limits)
            (union (keys desired.tcp_conn_prefix_limits) (keys desired.tcp_conn_port_limits)))) in
      let udp_policy_ports =
        union (keys desired.udp_rate_limits) (keys desired.udp_agg_rate_limits) in
      record b {
        tcp_policy_map = prefixed tcp_policy_ports desired dry_run b.tcp_policy_map;
        udp_policy_map = prefixed udp_policy_ports desired dry_run b.udp_policy_map;
      }

  -- the ACL rules, the runtime configuration, the global rate and the tunnel endpoints
  unfoldable pub sync_settings : ReconcilePlan → DesiredState → Bool → Backend k → Backend k
  sync_settings plan desired dry_run b =
      let (n1, m1) = over (acl_delta k cfg plan dry_run) b.acl_maps in
      let (n2, m2) = over (runtime_delta k cfg desired dry_run) b.runtime_config_map in
      let (n3, m3) =
        over (global_delta k cfg plan.udp_global_byte_rate_update dry_run) b.global_rl_map in
      let (n4, m4) = over (sit4_delta k cfg dry_run) b.sit4_map in
      record b {
        last_apply_failures = b.last_apply_failures + n1 + n2 + n3 + n4;
        acl_maps = m1;
        runtime_config_map = m2;
        global_rl_map = m3;
        sit4_map = m4;
      }

  -- everything before the new ports: `none` is a ValueError
  unfoldable pub protect :
      (Bytes → ℕ) → ReconcilePlan → DesiredState → Bool → Backend k → Option (Backend k)
  protect now plan desired dry_run b = do
    seeded ← seed_flows now plan dry_run (close_tcp plan dry_run b)
    expired ← expire_flows plan dry_run seeded
    some (
        sync_settings plan desired dry_run (
          sync_prefixes desired dry_run (
            sync_rate_outers desired dry_run (
              sync_policies plan dry_run
                (sync_sctp_and_trust plan dry_run (close_udp plan dry_run expired))))))

  -- new ports are opened only if no update failed before
  unfoldable pub expose : ReconcilePlan → Bool → Backend k → Backend k
  expose plan dry_run b =
      let (failures, m) = write_ports k cfg 1 plan.tcp_ports_to_add dry_run b.tcp_map in
      let (more, u) = write_ports k cfg 1 plan.udp_ports_to_add dry_run b.udp_map in
      if b.last_apply_failures == 0
      then record b { last_apply_failures = failures + more; tcp_map = m; udp_map = u }
      else b

  unfoldable pub apply_reconcile_plan :
      (Bytes → ℕ) → ReconcilePlan → DesiredState → Bool → Backend k → Option (Backend k)
  apply_reconcile_plan now plan desired dry_run b = do
    prepared ← protect now plan desired dry_run b
    some (expose plan dry_run prepared)

  -- `PortBackend.reconcile` under `XdpBackend.reconcile`
  unfoldable pub reconcile : (Bytes → ℕ) → DesiredState → Bool → Backend k → Option (Backend k)
  reconcile now desired dry_run b =
      let (applied, b1) = get_applied_state k b in
      let (plan, b2) = build_reconcile_plan k cfg desired applied b1 in
      do
        b3 ← apply_reconcile_plan now plan desired dry_run b2
        some (
            if dry_run then record b3 { conntrack_stale_rounds = b.conntrack_stale_rounds } else b3)

  -- the four times are those of the four calls of `time.monotonic_ns()`
  unfoldable pub udp_collected :
      Backend k → Reply ℕ × ConntrackMaps k.flows → Reply (Unit {0}) × Backend k
  udp_collected b (done deleted, flows) = (done tt, record b { udp_conntrack_map = flows })
  udp_collected b (fails e, flows) = (fails e, record b { udp_conntrack_map = flows })

  unfoldable pub tcp_collected :
      ℕ → ℕ → Backend k → Reply ℕ × ConntrackMaps k.flows → Reply (Unit {0}) × Backend k
  unfolding udp_collected
  tcp_collected now4 now6 b (fails e, flows) = (fails e, record b { conntrack_map = flows })
  tcp_collected now4 now6 b (done deleted, flows) =
      udp_collected (record b { conntrack_map = flows })
        (gc_flows k.flows now4 now6 (F.to_ns cfg.xdp_udp_timeout_seconds) none b.udp_conntrack_map)

  unfoldable pub run_ct_gc : ℕ → ℕ → ℕ → ℕ → Backend k → Reply (Unit {0}) × Backend k
  unfolding tcp_collected
  run_ct_gc tcp4 tcp6 udp4 udp6 b = tcp_collected udp4 udp6 b (
      gc_flows k.flows tcp4 tcp6 (F.to_ns cfg.xdp_tcp_timeout_seconds)
        (some (F.to_ns cfg.xdp_syn_timeout_seconds)) b.conntrack_map)
