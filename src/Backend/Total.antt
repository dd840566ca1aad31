-- ===== src/Backend/Total.antt =====
-- `XdpBackend.reconcile` of auto_xdp/backends/xdp.py: where every number and text can be packed, the
-- one exception of its loops is the ValueError for a key of a tracked flow that has neither 12 nor 36 bytes.
use auto_xdp.Base.{
  Bool, Dict, List, Option, Option-cases, [], arith, bool_key, contains, contains-difference,
  contains_self, erase, if◌then◌else◌, inl, inr, is_some, list_key, nat_key, none, option_key,
  pair_key, refl, some, string_key, true, ℕ, ◌>>=◌, ◌∷◌, ◌≡◌,
}
use auto_xdp.Backend.{Backend, Kernels, build_reconcile_plan, get_applied_state}
use auto_xdp.Backend.Apply.{
  apply_reconcile_plan, close_tcp, expire_flows, protect, reconcile, seed_flows,
}
use auto_xdp.Backend.Phases.{flow_loop}
use auto_xdp.Backend.Stale.{NoRepeat, removed_after_misses}
use auto_xdp.Bpf.ConntrackMaps.{
  ConntrackMaps, active_flows, delete_flow, existing_flows, pick_map, set_flow, v4, v6,
}
use auto_xdp.Config.{Config, Float}
use auto_xdp.State.{AppliedState, Bytes, DesiredState, ReconcilePlan}

-- every key is an IPv4 or an IPv6 key
abbrev pub AreFlows : List Bytes → Type 0
AreFlows flows = (key : Bytes) → contains key flows ≡ true → is_some (pick_map key) ≡ true

module _ (k : Kernels) {F : Float} (cfg : Config F) where
  set_flow_returns :
      (now : ℕ) (key : Bytes) (dry_run : Bool) (t : ConntrackMaps k.flows)
      → is_some (pick_map key) ≡ true
      → is_some (set_flow k.flows now key dry_run t) ≡ true
  unfolding set_flow
  set_flow_returns now key dry_run t h = elim (Option-cases (pick_map key)) [
    | inl bad ↦ absurd (cc)
    | inr (v4, good) ↦ rw (set_flow, good) refl
    | inr (v6, good) ↦ rw (set_flow, good) refl
  ]

  delete_flow_returns :
      (key : Bytes) (dry_run : Bool) (t : ConntrackMaps k.flows)
      → is_some (pick_map key) ≡ true
      → is_some (delete_flow k.flows key dry_run t) ≡ true
  unfolding delete_flow
  delete_flow_returns key dry_run t h = elim (Option-cases (pick_map key)) [
    | inl bad ↦ absurd (cc)
    | inr (v4, good) ↦ rw (delete_flow, good) refl
    | inr (v6, good) ↦ rw (delete_flow, good) refl
  ]

  bind_returns :
      {A B : Type 0} (o : Option A) (f : A → Option B)
      → is_some o ≡ true
      → ((a : A) → is_some (f a) ≡ true)
      → is_some (o >>= f) ≡ true
  bind_returns none f h g = absurd (cc)
  bind_returns (some a) f h g = g a

  flow_loop_returns :
      {M : Type 0} (op : Bytes → M → Option (Bool × M))
      (forget : Bytes → Dict Bytes ℕ → Dict Bytes ℕ)
      → ((key : Bytes) (m : M) → is_some (pick_map key) ≡ true → is_some (op key m) ≡ true)
      → (flows : List Bytes) (acc : M × Dict Bytes ℕ) → AreFlows flows
      → is_some (flow_loop op forget flows acc) ≡ true
  unfolding flow_loop contains
  flow_loop_returns op forget h [] acc good = refl
  flow_loop_returns op forget h (key ∷ flows) acc good =
      bind_returns (op key acc.0) _ (h key acc.0 (good key (contains_self key flows))) (λ r.
        bind_returns (flow_loop op forget flows (r.1, if r.0 then forget key acc.1 else acc.1)) _
          (flow_loop_returns op forget h flows (r.1, if r.0 then forget key acc.1 else acc.1)
            (λ x m. good x (ground arith)))
          (λ t. refl))

  apply_returns :
      (now : Bytes → ℕ) (plan : ReconcilePlan) (desired : DesiredState) (dry_run : Bool)
      (b : Backend k)
      → AreFlows plan.conntrack_entries_to_add
      → AreFlows plan.conntrack_entries_to_remove
      → is_some (apply_reconcile_plan k cfg now plan desired dry_run b) ≡ true
  unfolding apply_reconcile_plan protect seed_flows expire_flows
  apply_returns now plan desired dry_run b adds removes =
      bind_returns (protect k cfg now plan desired dry_run b) _
        (bind_returns (seed_flows k cfg now plan dry_run (close_tcp k cfg plan dry_run b)) _
          (bind_returns
            (flow_loop (λ key. set_flow k.flows (now key) key dry_run) erase
              plan.conntrack_entries_to_add
              (
                (close_tcp k cfg plan dry_run b).conntrack_map,
                (close_tcp k cfg plan dry_run b).conntrack_stale_rounds,
              ))
            _
            (flow_loop_returns _ erase (λ key t. set_flow_returns (now key) key dry_run t)
              plan.conntrack_entries_to_add _ adds)
            (λ r. refl))
          (λ c.
            bind_returns (expire_flows k cfg plan dry_run c) _
              (bind_returns
                (flow_loop (λ key. delete_flow k.flows key dry_run) erase
                  plan.conntrack_entries_to_remove (c.conntrack_map, c.conntrack_stale_rounds))
                _
                (flow_loop_returns _ erase (λ key t. delete_flow_returns key dry_run t)
                  plan.conntrack_entries_to_remove _ removes)
                (λ r. refl))
              (λ e. refl)))
        (λ c. refl)

  adds-AreFlows :
      (desired : DesiredState) (applied : AppliedState) (b : Backend k)
      → AreFlows desired.conntrack_entries
      → AreFlows (build_reconcile_plan k cfg desired applied b).0.conntrack_entries_to_add
  unfolding build_reconcile_plan
  adds-AreFlows desired applied b h key m = h key (
      ground (
        arith,
        contains-difference key desired.conntrack_entries
            (existing_flows k.flows desired.conntrack_entries b.conntrack_map).0,
      ))

  -- The ValueError of `_pick_map` does not occur in a round where every flow that is observed or
  -- tracked has an IPv4 or an IPv6 key and no tracked flow is listed twice.
  pub reconcile_returns :
      (now : Bytes → ℕ) (desired : DesiredState) (dry_run : Bool) (b : Backend k)
      → AreFlows desired.conntrack_entries
      → AreFlows (active_flows k.flows b.conntrack_map)
      → NoRepeat (active_flows k.flows b.conntrack_map)
      → is_some (reconcile k cfg now desired dry_run b) ≡ true
  unfolding reconcile get_applied_state active_flows
  reconcile_returns now desired dry_run b observed tracked once =
      let (applied, b1) = get_applied_state k b in
      let (plan, b2) = build_reconcile_plan k cfg desired applied b1 in
      bind_returns (apply_reconcile_plan k cfg now plan desired dry_run b2) _
        (apply_returns now plan desired dry_run b2 (adds-AreFlows desired applied b1 observed)
          (λ key m.
            tracked key
              (ground (arith, (removed_after_misses k cfg desired applied b1 key once).0))))
        (λ c. refl)
