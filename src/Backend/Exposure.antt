-- ===== src/Backend/Exposure.antt =====
-- When `XdpBackend.apply_reconcile_plan` of auto_xdp/backends/xdp.py opens and closes ports.
use auto_xdp.Bpf.ArrayMap
use auto_xdp.Base.{
  Bool, Bool-cases, Holds, List, [], ap, arith, all-Holds, bind-Holds, bool_key, contains,
  contains-sort, erase, false, Holds-at, if◌then◌else◌, inl, inr, leb, list_key, nat_key, not,
  option_key, pair_key, refl, some, sort, string_key, sym, true, ℕ, ◌==◌, ◌∙◌, ◌∷◌, ◌≡◌, ◌≤◌,
}
use auto_xdp.Backend.{Backend, Kernels}
use auto_xdp.Backend.Apply.{
  apply_reconcile_plan, close_tcp, close_udp, expire_flows, expose, protect, seed_flows,
  sync_policies, sync_prefixes, sync_rate_outers, sync_sctp_and_trust, sync_settings,
}
use auto_xdp.Backend.Phases.{flow_loop, write_ports}
use auto_xdp.Bpf.ArrayMap.{ArrayMap}
use auto_xdp.Bpf.ConntrackMaps.{delete_flow, set_flow}
use auto_xdp.Bpf.Kernel.{sweep, sweep_clean}
use auto_xdp.Config.{Config, Float}
use auto_xdp.State.{Bytes, DesiredState, ReconcilePlan}

-- the two whitelists that apply_reconcile_plan guards
pub data Proto : Type 0 where
  over_tcp : Proto
  over_udp : Proto

abbrev pub whitelist : {k : Kernels} → Proto → Backend k → List ℕ
whitelist over_tcp b = b.tcp_map.cache
whitelist over_udp b = b.udp_map.cache

abbrev pub ports_to_add : Proto → ReconcilePlan → List ℕ
ports_to_add over_tcp plan = plan.tcp_ports_to_add
ports_to_add over_udp plan = plan.udp_ports_to_add

module _ (k : Kernels) {F : Float} (cfg : Config F) where
  -- a loop over ports that had no failure wrote all of them
  pub contains-swept :
      (val : ℕ) (ports : List ℕ) (m : ArrayMap.ArrayMap k.ports) (p : ℕ)
      → (sweep (λ port. ArrayMap.set k.ports port val false) ports m).0 ≡ 0
      → contains p (sweep (λ port. ArrayMap.set k.ports port val false) ports m).1.cache
        ≡ (if contains p ports then not (val == 0) else contains p m.cache)
  unfolding sweep contains ArrayMap.active_ports
  contains-swept val [] m p h = refl
  contains-swept val (port ∷ ports) m p h =
      let (fine, rest) = sweep_clean (λ port. ArrayMap.set k.ports port val false) port ports m h in
      ground (
        arith,
        fine,
        contains-swept val ports (ArrayMap.set k.ports port val false m).1 p rest,
        ArrayMap.contains-set k.ports port val false m p,
      )

  -- a loop that closes ports, whatever fails, admits no port that was not admitted
  swept_off :
      (ports : List ℕ) (dry_run : Bool) (m : ArrayMap.ArrayMap k.ports) (p : ℕ)
      → contains p (sweep (λ port. ArrayMap.set k.ports port 0 dry_run) ports m).1.cache ≡ true
      → contains p m.cache ≡ true
  unfolding sweep ArrayMap.active_ports
  swept_off [] dry_run m p h = h
  swept_off (port ∷ ports) dry_run m p h = ground (
    arith,
    swept_off ports dry_run (ArrayMap.set k.ports port 0 dry_run m).1 p h,
    ArrayMap.contains-set k.ports port 0 dry_run m p,
  )

  -- a loop that opens ports admits none but those
  swept_on :
      (ports : List ℕ) (dry_run : Bool) (m : ArrayMap.ArrayMap k.ports) (p : ℕ)
      → contains p (sweep (λ port. ArrayMap.set k.ports port 1 dry_run) ports m).1.cache ≡ true
      → contains p m.cache ≡ false
      → contains p ports ≡ true
  unfolding sweep contains ArrayMap.active_ports
  swept_on [] dry_run m p h out = absurd (cc)
  swept_on (port ∷ ports) dry_run m p h out = ground (
    arith,
    swept_on ports dry_run (ArrayMap.set k.ports port 1 dry_run m).1 p h,
    ArrayMap.contains-set k.ports port 1 dry_run m p,
  )

  -- What the two whitelists are when the protection is in place, and that a failure to close a
  -- port is among those counted.
  pub record Closed (plan : ReconcilePlan) (dry_run : Bool) (b c : Backend k) : Type 0 where
    pub tcp_is : c.tcp_map ≡ (write_ports k cfg 0 plan.tcp_ports_to_remove dry_run b.tcp_map).1
    pub udp_is : c.udp_map ≡ (write_ports k cfg 0 plan.udp_ports_to_remove dry_run b.udp_map).1
    pub tcp_counted :
        (write_ports k cfg 0 plan.tcp_ports_to_remove dry_run b.tcp_map).0 ≤ c.last_apply_failures
    pub udp_counted :
        (write_ports k cfg 0 plan.udp_ports_to_remove dry_run b.udp_map).0 ≤ c.last_apply_failures

  -- the phases in between leave the two whitelists and count on
  record Kept (b c : Backend k) : Type 0 where
    pub tcp_is : c.tcp_map ≡ b.tcp_map
    pub udp_is : c.udp_map ≡ b.udp_map
    counted : b.last_apply_failures ≤ c.last_apply_failures

  seed_flows-Kept :
      (now : Bytes → ℕ) (plan : ReconcilePlan) (dry_run : Bool) (b : Backend k)
      → Holds (Kept b) (seed_flows k cfg now plan dry_run b)
  unfolding seed_flows
  seed_flows-Kept now plan dry_run b =
      all-Holds (Kept b)
        (flow_loop (λ key. set_flow k.flows (now key) key dry_run) erase
          plan.conntrack_entries_to_add (b.conntrack_map, b.conntrack_stale_rounds))
        _ (λ r. record { tcp_is = refl; udp_is = refl; counted = omega arith })

  expire_flows-Kept :
      (plan : ReconcilePlan) (dry_run : Bool) (b : Backend k)
      → Holds (Kept b) (expire_flows k cfg plan dry_run b)
  unfolding expire_flows
  expire_flows-Kept plan dry_run b =
      all-Holds (Kept b)
        (flow_loop (λ key. delete_flow k.flows key dry_run) erase plan.conntrack_entries_to_remove
          (b.conntrack_map, b.conntrack_stale_rounds))
        _ (λ r. record { tcp_is = refl; udp_is = refl; counted = omega arith })

  pub protect_closes :
      (now : Bytes → ℕ) (plan : ReconcilePlan) (desired : DesiredState) (dry_run : Bool)
      (b : Backend k)
      → Holds (Closed plan dry_run b) (protect k cfg now plan desired dry_run b)
  unfolding protect close_tcp close_udp sync_sctp_and_trust sync_policies sync_rate_outers
      sync_prefixes sync_settings
  protect_closes now plan desired dry_run b =
      let b1 = close_tcp k cfg plan dry_run b in
      bind-Holds (Kept b1) (Closed plan dry_run b) (seed_flows k cfg now plan dry_run b1) _
        (seed_flows-Kept now plan dry_run b1)
        (λ c h.
          bind-Holds (Kept c) (Closed plan dry_run b) (expire_flows k cfg plan dry_run c) _
            (expire_flows-Kept plan dry_run c)
            (λ e g. record {
              tcp_is = g.tcp_is ∙ h.tcp_is;
              udp_is =
                  ap (λ m. (write_ports k cfg 0 plan.udp_ports_to_remove dry_run m).1)
                    (g.udp_is ∙ h.udp_is);
              tcp_counted = omega (arith, h.counted, g.counted);
              udp_counted = omega (
                arith,
                ap (λ m. (write_ports k cfg 0 plan.udp_ports_to_remove dry_run m).0)
                    (g.udp_is ∙ h.udp_is),
              );
            }))

  stays_closed :
      (ports : List ℕ) (dry_run : Bool) (m m1 : ArrayMap.ArrayMap k.ports) (p : ℕ)
      → m1 ≡ (write_ports k cfg 0 ports dry_run m).1
      → contains p m.cache ≡ false
      → contains p m1.cache ≡ false
  unfolding write_ports
  stays_closed ports dry_run m m1 p e out = elim (Bool-cases (contains p m1.cache)) [
    | inl on ↦
        absurd
          (cc (swept_off (sort leb ports) dry_run m p (sym (ap (λ n. contains p n.cache) e) ∙ on)))
    | inr off ↦ off
  ]

  opened_is_added :
      (ports : List ℕ) (dry_run : Bool) (m : ArrayMap.ArrayMap k.ports) (p : ℕ)
      → contains p m.cache ≡ false
      → contains p (write_ports k cfg 1 ports dry_run m).1.cache ≡ true
      → contains p ports ≡ true
  unfolding write_ports
  opened_is_added ports dry_run m p out is_in =
      sym (contains-sort leb p ports) ∙ swept_on (sort leb ports) dry_run m p is_in out

  exposed_gate :
      (proto : Proto) (plan : ReconcilePlan) (dry_run : Bool) (b c : Backend k) (p : ℕ)
      → Closed plan dry_run b c
      → contains p (whitelist proto b) ≡ false
      → contains p (whitelist proto (expose k cfg plan dry_run c)) ≡ true
      → (c.last_apply_failures ≡ 0) × (contains p (ports_to_add proto plan) ≡ true)
  unfolding expose
  exposed_gate over_tcp plan dry_run b c p h out =
      let off = stays_closed plan.tcp_ports_to_remove dry_run b.tcp_map c.tcp_map p h.tcp_is out in
      elim (Bool-cases (c.last_apply_failures == 0)) [
        | inl clean ↦ rw clean (λ is_in.
            (ground arith, opened_is_added plan.tcp_ports_to_add dry_run c.tcp_map p off is_in))
        | inr dirty ↦ rw dirty (λ is_in. absurd (cc off))
      ]
  exposed_gate over_udp plan dry_run b c p h out =
      let off = stays_closed plan.udp_ports_to_remove dry_run b.udp_map c.udp_map p h.udp_is out in
      elim (Bool-cases (c.last_apply_failures == 0)) [
        | inl clean ↦ rw clean (λ is_in.
            (ground arith, opened_is_added plan.udp_ports_to_add dry_run c.udp_map p off is_in))
        | inr dirty ↦ rw dirty (λ is_in. absurd (cc off))
      ]

  -- For every plan and every answer of the kernel: a TCP or UDP port that is in the daemon's cache
  -- of its whitelist after the plan was carried out, and was not before, is one that the plan adds,
  -- and no update was counted as failed in the phases before the opening of ports. Updates of maps
  -- that could not be opened, and of source prefixes, are not counted.
  pub new_ports_are_protected :
      (proto : Proto) (now : Bytes → ℕ) (plan : ReconcilePlan) (desired : DesiredState)
      (dry_run : Bool) (b prepared b' : Backend k) (p : ℕ)
      → protect k cfg now plan desired dry_run b ≡ some prepared
      → apply_reconcile_plan k cfg now plan desired dry_run b ≡ some b'
      → contains p (whitelist proto b) ≡ false
      → contains p (whitelist proto b') ≡ true
      → (prepared.last_apply_failures ≡ 0) × (contains p (ports_to_add proto plan) ≡ true)
  unfolding apply_reconcile_plan
  new_ports_are_protected proto now plan desired dry_run b prepared b' p e h =
      let closed =
        Holds-at (Closed plan dry_run b) (protect k cfg now plan desired dry_run b) prepared e
          (protect_closes now plan desired dry_run b) in
      Holds-at
        (λ c.
          contains p (whitelist proto b) ≡ false
          → contains p (whitelist proto c) ≡ true
          → (prepared.last_apply_failures ≡ 0) × (contains p (ports_to_add proto plan) ≡ true))
        (apply_reconcile_plan k cfg now plan desired dry_run b) b' h
        (rw e (exposed_gate proto plan dry_run b prepared p closed))
