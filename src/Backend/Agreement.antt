-- ===== src/Backend/Agreement.antt =====
-- `XdpBackend.reconcile` of auto_xdp/backends/xdp.py: what a round without failures leaves.
use auto_xdp.Bpf.ArrayMap
use auto_xdp.Base.{
  Bool-cases, Holds, List, ap, arith, bind-Holds, bool_key, contains, contains-difference,
  contains-sort, difference, false, Holds-at, inl, inr, leb, list_key, nat_key, not, option_key,
  pair_key, some, sort, string_key, ℕ, ◌&&◌, ◌==◌, ◌||◌, ◌∙◌, ◌≡◌,
}
use auto_xdp.Backend.{Backend, Kernels, build_reconcile_plan, get_applied_state}
use auto_xdp.Backend.Apply.{apply_reconcile_plan, expose, protect, reconcile}
use auto_xdp.Backend.Exposure.{Closed, contains-swept, protect_closes}
use auto_xdp.Backend.Phases.{write_ports}
use auto_xdp.Backend.Reads.{get_applied_state-IsRead}
use auto_xdp.Bpf.ArrayMap.{ArrayMap}
use auto_xdp.Config.{Config, Float}
use auto_xdp.State.{Bytes, DesiredState, ReconcilePlan, compute_reconcile_plan}

module _ (k : Kernels) {F : Float} (cfg : Config F) where
  -- closing, then opening
  contains-rewritten :
      (off on : List ℕ) (m m1 : ArrayMap.ArrayMap k.ports) (p : ℕ)
      → m1 ≡ (write_ports k cfg 0 off false m).1
      → (write_ports k cfg 0 off false m).0 ≡ 0
      → (write_ports k cfg 1 on false m1).0 ≡ 0
      → contains p (write_ports k cfg 1 on false m1).1.cache
        ≡ (contains p on || contains p m.cache && not (contains p off))
  unfolding write_ports
  contains-rewritten off on m m1 p e none_off none_on = ground (
    arith,
    contains-swept k cfg 1 (sort leb on) m1 p none_on,
    contains-swept k cfg 0 (sort leb off) m p none_off,
    contains-sort leb p on,
    contains-sort leb p off,
    ap (λ n. contains p n.cache) e,
  )

  -- the two whitelists after a plan that was carried out without a failure
  abbrev Rewritten : ReconcilePlan → Backend k → Backend k → Type 0
  Rewritten plan b c =
      c.last_apply_failures ≡ 0
      → (p : ℕ)
      → (contains p c.tcp_map.cache ≡ (
          contains p plan.tcp_ports_to_add
          || contains p b.tcp_map.cache && not (contains p plan.tcp_ports_to_remove)))
        × (contains p c.udp_map.cache ≡ (
            contains p plan.udp_ports_to_add
            || contains p b.udp_map.cache && not (contains p plan.udp_ports_to_remove)))

  expose-Rewritten :
      (plan : ReconcilePlan) (b c : Backend k)
      → Closed k cfg plan false b c
      → Rewritten plan b (expose k cfg plan false c)
  unfolding expose
  expose-Rewritten plan b c h = elim (Bool-cases (c.last_apply_failures == 0)) [
    | inl clean ↦ rw clean (λ z p. (
      contains-rewritten plan.tcp_ports_to_remove plan.tcp_ports_to_add b.tcp_map c.tcp_map p
          h.tcp_is (ground (arith, h.tcp_counted)) (omega arith),
      contains-rewritten plan.udp_ports_to_remove plan.udp_ports_to_add b.udp_map c.udp_map p
          h.udp_is (ground (arith, h.udp_counted)) (omega arith),
    ))
    | inr dirty ↦ rw dirty (λ z. absurd (ground arith))
  ]

  apply-Rewritten :
      (now : Bytes → ℕ) (plan : ReconcilePlan) (desired : DesiredState) (b : Backend k)
      → Holds (Rewritten plan b) (apply_reconcile_plan k cfg now plan desired false b)
  unfolding apply_reconcile_plan
  apply-Rewritten now plan desired b =
      bind-Holds (Closed k cfg plan false b) (Rewritten plan b)
        (protect k cfg now plan desired false b) _ (protect_closes k cfg now plan desired false b)
        (expose-Rewritten plan b)

  replaced :
      (p : ℕ) (wanted old old1 : List ℕ)
      → old1 ≡ old
      → (contains p (difference wanted old)
          || contains p old1 && not (contains p (difference old wanted)))
        ≡ contains p wanted
  replaced p wanted old old1 e = ground (
    arith,
    contains-difference p wanted old,
    contains-difference p old wanted,
    ap (λ s. contains p s) e,
  )

  -- A round that is no dry run and ends with no failed map update leaves in the daemon's caches of
  -- the TCP and of the UDP whitelist exactly the wanted ports, whatever was in the caches before.
  pub reconcile_reaches_ports :
      (now : Bytes → ℕ) (desired : DesiredState) (b b' : Backend k)
      → reconcile k cfg now desired false b ≡ some b'
      → b'.last_apply_failures ≡ 0
      → (p : ℕ)
      → (contains p b'.tcp_map.cache ≡ contains p desired.tcp_ports)
        × (contains p b'.udp_map.cache ≡ contains p desired.udp_ports)
  unfolding reconcile build_reconcile_plan get_applied_state compute_reconcile_plan
      ArrayMap.active_ports
  reconcile_reaches_ports now desired b b' h clean p =
      let (applied, b1) = get_applied_state k b in
      let (plan, b2) = build_reconcile_plan k cfg desired applied b1 in
      let same = (get_applied_state-IsRead k b).0 in
      let ends =
        Holds-at (Rewritten plan b2) (reconcile k cfg now desired false b) b' h
          (bind-Holds (Rewritten plan b2) (Rewritten plan b2)
            (apply_reconcile_plan k cfg now plan desired false b2) _
            (apply-Rewritten now plan desired b2) (λ c r. r))
          clean p in
      (
        ends.0
            ∙ replaced p desired.tcp_ports b.tcp_map.cache b1.tcp_map.cache
                (ap (λ w. w.tcp_map.cache) same),
        ends.1
            ∙ replaced p desired.udp_ports b.udp_map.cache b1.udp_map.cache
                (ap (λ w. w.udp_map.cache) same),
      )
