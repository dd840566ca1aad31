-- ===== src/Backend/IdlePhases.antt =====
-- The phases of `XdpBackend.apply_reconcile_plan` under `dry_run`: each leaves the maps alone.
use auto_xdp.Bpf.PortPolicy
use auto_xdp.Base.{
  Bool, Dict, Holds, List, Option, Option-cases, [], ap, arith, bind-Holds, bool_key, if◌then◌else◌,
  inl, inr, keys, list_key, lookup, nat_key, none, option_key, pair_key, refl, some, string_key,
  true, union, ℕ, ◌∙◌, ◌∷◌, ◌≡◌,
}
use auto_xdp.Backend.{Backend, Kernels}
use auto_xdp.Backend.Apply.{
  close_tcp, close_udp, entries_v6, prefixed, sync_policies, sync_prefixes, sync_rate_outers,
  sync_sctp_and_trust, sync_settings, tcp_limits_delta, udp_limits_delta,
}
use auto_xdp.Backend.Idle.{
  acl_delta_idle, both_idle, close_flows_idle, over_idle, rate_map_delta_idle,
  rate_outer_delta_idle, sit4_delta_idle, trusted_delta_idle, write_ports_idle,
}
use auto_xdp.Backend.Phases.{
  acl_delta, both, flow_loop, global_delta, over, rate_outer_delta, runtime_checked, runtime_delta,
  sit4_delta, write_ports,
}
use auto_xdp.Backend.Reads.{written_maps}
use auto_xdp.Bpf.Runtime.{set_config, set_rate}
use auto_xdp.Config.{Config, Float}
use auto_xdp.State.{Bytes, DesiredState, ReconcilePlan}

module _ (k : Kernels) {F : Float} (cfg : Config F) where
  -- the maps are as before, and no failure was counted
  abbrev pub Idle : Backend k → Backend k → Type 0
  Idle b c = (written_maps c ≡ written_maps b) × (c.last_apply_failures ≡ 0)

  pub close_tcp-Idle : (plan : ReconcilePlan) (b : Backend k) → Idle b (close_tcp k cfg plan true b)
  unfolding close_tcp
  close_tcp-Idle plan b =
      rw (write_ports_idle k cfg 0 plan.tcp_ports_to_remove b.tcp_map) (refl, refl)

  pub close_udp-Idle :
      (plan : ReconcilePlan) (a b : Backend k) → Idle a b → Idle a (close_udp k cfg plan true b)
  unfolding close_udp
  close_udp-Idle plan a b h =
      rw
        (
          write_ports_idle k cfg 0 plan.udp_ports_to_remove b.udp_map,
          close_flows_idle k cfg plan.udp_ports_to_remove b.udp_conntrack_map,
        )
        (h.0, omega (arith, h.1))

  pub sync_sctp_and_trust-Idle :
      (plan : ReconcilePlan) (a b : Backend k)
      → Idle a b
      → Idle a (sync_sctp_and_trust k cfg plan true b)
  unfolding sync_sctp_and_trust
  sync_sctp_and_trust-Idle plan a b h =
      rw
        (
          over_idle
              (both (write_ports k cfg 1 plan.sctp_ports_to_add true)
                (write_ports k cfg 0 plan.sctp_ports_to_remove true))
              b.sctp_map
              (λ m.
                both_idle (write_ports k cfg 1 plan.sctp_ports_to_add true)
                  (write_ports k cfg 0 plan.sctp_ports_to_remove true) m
                  (write_ports_idle k cfg 1 plan.sctp_ports_to_add m)
                  (write_ports_idle k cfg 0 plan.sctp_ports_to_remove m)),
          trusted_delta_idle k cfg plan b.trusted_map,
        )
        (h.0, omega (arith, h.1))

  pub tcp_limits_idle :
      (plan : ReconcilePlan) (m : PortPolicy.PortPolicyMap k.policies)
      → tcp_limits_delta k cfg plan true m ≡ (0, m)
  unfolding tcp_limits_delta
  tcp_limits_idle plan m =
      rw
        (
          rate_map_delta_idle k cfg PortPolicy.rate_field plan.tcp_syn_rate_limits_to_upsert
              plan.tcp_syn_rate_limits_to_remove m,
          rate_map_delta_idle k cfg PortPolicy.agg_rate_field plan.tcp_syn_agg_rate_limits_to_upsert
              plan.tcp_syn_agg_rate_limits_to_remove m,
          rate_map_delta_idle k cfg PortPolicy.conn_field plan.tcp_conn_limits_to_upsert
              plan.tcp_conn_limits_to_remove m,
          rate_map_delta_idle k cfg PortPolicy.conn_prefix_field
              plan.tcp_conn_prefix_limits_to_upsert plan.tcp_conn_prefix_limits_to_remove m,
          rate_map_delta_idle k cfg PortPolicy.conn_port_field plan.tcp_conn_port_limits_to_upsert
              plan.tcp_conn_port_limits_to_remove m,
        )
        refl

  pub udp_limits_idle :
      (plan : ReconcilePlan) (m : PortPolicy.PortPolicyMap k.policies)
      → udp_limits_delta k cfg plan true m ≡ (0, m)
  unfolding udp_limits_delta
  udp_limits_idle plan m =
      rw
        (
          rate_map_delta_idle k cfg PortPolicy.rate_field plan.udp_rate_limits_to_upsert
              plan.udp_rate_limits_to_remove m,
          rate_map_delta_idle k cfg PortPolicy.agg_rate_field plan.udp_agg_rate_limits_to_upsert
              plan.udp_agg_rate_limits_to_remove m,
        )
        refl

  pub sync_policies-Idle :
      (plan : ReconcilePlan) (a b : Backend k) → Idle a b → Idle a (sync_policies k cfg plan true b)
  unfolding sync_policies
  sync_policies-Idle plan a b h =
      rw
        (
          over_idle (tcp_limits_delta k cfg plan true) b.tcp_policy_map (tcp_limits_idle plan),
          over_idle (udp_limits_delta k cfg plan true) b.udp_policy_map (udp_limits_idle plan),
        )
        (h.0, omega (arith, h.1))

  pub sync_rate_outers-Idle :
      (desired : DesiredState) (a b : Backend k)
      → Idle a b
      → Idle a (sync_rate_outers k cfg desired true b)
  unfolding sync_rate_outers
  sync_rate_outers-Idle desired a b h =
      let tcp = desired.tcp_rate_map_entries in
      let udp = desired.udp_rate_map_entries in
      let tcp6 = entries_v6 k cfg desired.tcp_rate_map_entries in
      let udp6 = entries_v6 k cfg desired.udp_rate_map_entries in
      rw
        (
          over_idle (rate_outer_delta k cfg tcp true) b.syn4_outer
              (rate_outer_delta_idle k cfg tcp),
          over_idle (rate_outer_delta k cfg tcp6 true) b.syn6_outer
              (rate_outer_delta_idle k cfg tcp6),
          over_idle (rate_outer_delta k cfg udp true) b.udprt4_outer
              (rate_outer_delta_idle k cfg udp),
          over_idle (rate_outer_delta k cfg udp6 true) b.udprt6_outer
              (rate_outer_delta_idle k cfg udp6),
        )
        (h.0, omega (arith, h.1))

  pub ensure_prefix_idle :
      (port prefix_v4 prefix_v6 : ℕ) (m : PortPolicy.PortPolicyMap k.policies)
      → PortPolicy.ensure_prefix k.policies prefix_v4 prefix_v6 true port m ≡ m
  unfolding PortPolicy.ensure_prefix PortPolicy.set_fields
  ensure_prefix_idle port prefix_v4 prefix_v6 m = elim (Option-cases (lookup port m.cache)) [
    | inl absent ↦ rw (PortPolicy.ensure_prefix, absent) refl
    | inr (current, found) ↦ rw (PortPolicy.ensure_prefix, found) (ground arith)
  ]

  pub ensure_prefixes_idle :
      (ports : List ℕ) (prefix_v4 prefix_v6 : ℕ) (m : PortPolicy.PortPolicyMap k.policies)
      → PortPolicy.ensure_prefixes k.policies ports prefix_v4 prefix_v6 true m ≡ m
  unfolding PortPolicy.ensure_prefixes
  ensure_prefixes_idle [] prefix_v4 prefix_v6 m = refl
  ensure_prefixes_idle (port ∷ ports) prefix_v4 prefix_v6 m =
      rw (ensure_prefix_idle port prefix_v4 prefix_v6 m)
        (ensure_prefixes_idle ports prefix_v4 prefix_v6 m)

  pub prefixed_idle :
      (ports : List ℕ) (desired : DesiredState) (o : Option (PortPolicy.PortPolicyMap k.policies))
      → prefixed k cfg ports desired true o ≡ o
  unfolding prefixed
  prefixed_idle ports desired none = refl
  prefixed_idle ports desired (some m) =
      ap (λ n. some n)
        (ensure_prefixes_idle ports desired.rate_limit_source_prefix_v4
          desired.rate_limit_source_prefix_v6 m)

  pub sync_prefixes-Idle :
      (desired : DesiredState) (a b : Backend k)
      → Idle a b
      → Idle a (sync_prefixes k cfg desired true b)
  unfolding sync_prefixes
  sync_prefixes-Idle desired a b h = (
    (λ i. record (written_maps b) {
      tcp_policy_map =
          prefixed_idle
            (union (keys desired.tcp_syn_rate_limits) (
              union (keys desired.tcp_syn_agg_rate_limits) (
                union (keys desired.tcp_conn_limits) (
                  union (keys desired.tcp_conn_prefix_limits)
                    (keys desired.tcp_conn_port_limits)))))
            desired b.tcp_policy_map i;
      udp_policy_map =
          prefixed_idle (union (keys desired.udp_rate_limits) (keys desired.udp_agg_rate_limits))
            desired b.udp_policy_map i;
    })
        ∙ h.0,
    h.1,
  )

  pub runtime_fine :
      (desired : DesiredState) (o : Option k.runtime.State)
      → (over (runtime_delta k cfg desired true) o).0 ≡ 0
  unfolding runtime_delta runtime_checked set_config
  runtime_fine desired none = refl
  runtime_fine desired (some s) = ground arith

  pub global_fine :
      (u : Option ℕ) (o : Option k.global_rate.State) → (over (global_delta k cfg u true) o).0 ≡ 0
  unfolding global_delta set_rate
  global_fine u none = refl
  global_fine none (some s) = refl
  global_fine (some byte_rate) (some s) = refl

  pub sync_settings-Idle :
      (plan : ReconcilePlan) (desired : DesiredState) (a b : Backend k)
      → Idle a b
      → Idle a (sync_settings k cfg plan desired true b)
  unfolding sync_settings
  sync_settings-Idle plan desired a b h =
      rw
        (
          over_idle (acl_delta k cfg plan true) b.acl_maps (acl_delta_idle k cfg plan),
          over_idle (sit4_delta k cfg true) b.sit4_map (sit4_delta_idle k cfg),
          runtime_fine desired b.runtime_config_map,
          global_fine plan.udp_global_byte_rate_update b.global_rl_map,
        )
        (h.0, omega (arith, h.1))

  -- a loop over flows under `dry_run` counts no failure
  pub flow_loop_idle :
      {M : Type 0} (op : Bytes → M → Option (Bool × M))
      (forget : Bytes → Dict Bytes ℕ → Dict Bytes ℕ)
      → ((key : Bytes) (m : M) → Holds (λ r. r.0 ≡ true) (op key m))
      → (flows : List Bytes) (acc : M × Dict Bytes ℕ)
      → Holds (λ r. r.0 ≡ 0) (flow_loop op forget flows acc)
  unfolding flow_loop
  flow_loop_idle op forget h [] acc = refl
  flow_loop_idle op forget h (key ∷ flows) acc =
      bind-Holds (λ r. r.0 ≡ true) (λ r. r.0 ≡ 0) (op key acc.0) _ (h key acc.0)
        (λ r fine.
          bind-Holds (λ t. t.0 ≡ 0) (λ t. t.0 ≡ 0)
            (flow_loop op forget flows (r.1, if r.0 then forget key acc.1 else acc.1)) _
            (flow_loop_idle op forget h flows (r.1, if r.0 then forget key acc.1 else acc.1))
            (λ t clean. rw fine clean))
