-- ===== src/Backend/DryRun.antt =====
-- `dry_run` in `XdpBackend.reconcile` of auto_xdp/backends/xdp.py: a round that only reports.
use auto_xdp.Bpf.Conntrack
use auto_xdp.Base.{
  Dict, Holds, Option-cases, arith, bind-Holds, bool_key, erase, Holds-at, inl, inr, list_key,
  nat_key, option_key, pair_key, refl, some, string_key, true, ℕ, ◌∙◌, ◌≡◌,
}
use auto_xdp.Backend.{Backend, Kernels, build_reconcile_plan, get_applied_state}
use auto_xdp.Backend.Apply.{
  apply_reconcile_plan, close_tcp, close_udp, expire_flows, expose, protect, reconcile, seed_flows,
  sync_policies, sync_prefixes, sync_rate_outers, sync_sctp_and_trust,
}
use auto_xdp.Backend.Idle.{write_ports_idle}
use auto_xdp.Backend.IdlePhases.{
  Idle, close_tcp-Idle, close_udp-Idle, flow_loop_idle, sync_policies-Idle, sync_prefixes-Idle,
  sync_rate_outers-Idle, sync_sctp_and_trust-Idle, sync_settings-Idle,
}
use auto_xdp.Backend.Phases.{flow_loop}
use auto_xdp.Backend.Reads.{get_applied_state-IsRead, written_maps}
use auto_xdp.Bpf.ConntrackMaps.{ConntrackMaps, delete_flow, pick_map, set_flow, v4, v6}
use auto_xdp.Config.{Config, Float}
use auto_xdp.State.{Bytes, DesiredState, ReconcilePlan}

module _ (k : Kernels) {F : Float} (cfg : Config F) where
  set_flow_fine :
      (now : ℕ) (key : Bytes) (t : ConntrackMaps k.flows)
      → Holds (λ r. r.0 ≡ true) (set_flow k.flows now key true t)
  unfolding set_flow Conntrack.set
  set_flow_fine now key t = elim (Option-cases (pick_map key)) [
    | inl bad ↦ rw (set_flow, bad) tt
    | inr (v4, good) ↦ rw (set_flow, good) refl
    | inr (v6, good) ↦ rw (set_flow, good) refl
  ]

  delete_flow_fine :
      (key : Bytes) (t : ConntrackMaps k.flows)
      → Holds (λ r. r.0 ≡ true) (delete_flow k.flows key true t)
  unfolding delete_flow Conntrack.delete
  delete_flow_fine key t = elim (Option-cases (pick_map key)) [
    | inl bad ↦ rw (delete_flow, bad) tt
    | inr (v4, good) ↦ rw (delete_flow, good) refl
    | inr (v6, good) ↦ rw (delete_flow, good) refl
  ]

  seed_flows-Idle :
      (now : Bytes → ℕ) (plan : ReconcilePlan) (a b : Backend k)
      → Idle k cfg a b
      → Holds (Idle k cfg a) (seed_flows k cfg now plan true b)
  unfolding seed_flows
  seed_flows-Idle now plan a b h =
      let op = λ (key : Bytes). set_flow k.flows (now key) key true in
      let acc : ConntrackMaps k.flows × Dict Bytes ℕ =
        (b.conntrack_map, b.conntrack_stale_rounds) in
      bind-Holds (λ t. t.0 ≡ 0) (Idle k cfg a)
        (flow_loop op erase plan.conntrack_entries_to_add acc) _
        (flow_loop_idle k cfg op erase (λ key t. set_flow_fine (now key) key t)
          plan.conntrack_entries_to_add acc)
        (λ t clean. (h.0, omega (arith, h.1, clean)))

  expire_flows-Idle :
      (plan : ReconcilePlan) (a b : Backend k)
      → Idle k cfg a b
      → Holds (Idle k cfg a) (expire_flows k cfg plan true b)
  unfolding expire_flows
  expire_flows-Idle plan a b h =
      let op = λ (key : Bytes). delete_flow k.flows key true in
      let acc : ConntrackMaps k.flows × Dict Bytes ℕ =
        (b.conntrack_map, b.conntrack_stale_rounds) in
      bind-Holds (λ t. t.0 ≡ 0) (Idle k cfg a)
        (flow_loop op erase plan.conntrack_entries_to_remove acc) _
        (flow_loop_idle k cfg op erase delete_flow_fine plan.conntrack_entries_to_remove acc)
        (λ t clean. (h.0, omega (arith, h.1, clean)))

  expose-Idle :
      (plan : ReconcilePlan) (a b : Backend k)
      → Idle k cfg a b
      → Idle k cfg a (expose k cfg plan true b)
  unfolding expose
  expose-Idle plan a b h =
      rw
        (
          write_ports_idle k cfg 1 plan.tcp_ports_to_add b.tcp_map,
          write_ports_idle k cfg 1 plan.udp_ports_to_add b.udp_map,
          h.1,
        )
        (h.0, refl)

  apply-Idle :
      (now : Bytes → ℕ) (plan : ReconcilePlan) (desired : DesiredState) (b : Backend k)
      → Holds (Idle k cfg b) (apply_reconcile_plan k cfg now plan desired true b)
  unfolding apply_reconcile_plan protect
  apply-Idle now plan desired b =
      let b1 = close_tcp k cfg plan true b in
      bind-Holds (Idle k cfg b) (Idle k cfg b) (protect k cfg now plan desired true b) _
        (bind-Holds (Idle k cfg b) (Idle k cfg b) (seed_flows k cfg now plan true b1) _
          (seed_flows-Idle now plan b b1 (close_tcp-Idle k cfg plan b))
          (λ c h.
            bind-Holds (Idle k cfg b) (Idle k cfg b) (expire_flows k cfg plan true c) _
              (expire_flows-Idle plan b c h)
              (λ e g.
                let u = close_udp k cfg plan true e in
                let v = sync_sctp_and_trust k cfg plan true u in
                let w = sync_policies k cfg plan true v in
                let x = sync_rate_outers k cfg desired true w in
                let y = sync_prefixes k cfg desired true x in
                sync_settings-Idle k cfg plan desired b y (
                  sync_prefixes-Idle k cfg desired b x (
                    sync_rate_outers-Idle k cfg desired b w (
                      sync_policies-Idle k cfg plan b v (
                        sync_sctp_and_trust-Idle k cfg plan b u
                          (close_udp-Idle k cfg plan b e g))))))))
        (expose-Idle plan b)

  -- Under `dry_run` a round that returns counts no failure and leaves as they were: the whitelists,
  -- the trusted networks, the tracked UDP flows, both policy maps, the ACL maps, the tunnel
  -- endpoints, the rate maps with their caches, and the rounds for which each flow was missed.
  pub dry_run_changes_nothing :
      (now : Bytes → ℕ) (desired : DesiredState) (b b' : Backend k)
      → reconcile k cfg now desired true b ≡ some b'
      → (written_maps b' ≡ written_maps b)
        × (b'.conntrack_stale_rounds ≡ b.conntrack_stale_rounds)
        × (b'.last_apply_failures ≡ 0)
  unfolding reconcile build_reconcile_plan
  dry_run_changes_nothing now desired b b' h =
      let same = λ (c : Backend k).
        (written_maps c ≡ written_maps b)
        × (c.conntrack_stale_rounds ≡ b.conntrack_stale_rounds)
        × (c.last_apply_failures ≡ 0) in
      let (applied, b1) = get_applied_state k b in
      let (plan, b2) = build_reconcile_plan k cfg desired applied b1 in
      Holds-at same (reconcile k cfg now desired true b) b' h (
        bind-Holds (Idle k cfg b2) same (apply_reconcile_plan k cfg now plan desired true b2) _
          (apply-Idle now plan desired b2)
          (λ c idle. (idle.0 ∙ (get_applied_state-IsRead k b).0, refl, idle.1)))
