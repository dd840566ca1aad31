-- ===== src/AbuseIpdb/Atomic.antt =====
-- `BpfRiskMaps.replace_all` of auto_xdp/abuseipdb.py: the new blocklist, or the old one.
use Prim.Native.Nat.{bit_and}
use auto_xdp.Bpf.LpmMap
use auto_xdp.Base.{
  Bool, List, String, [], ap, arith, bool_key, contains, contains-difference, contains-sort,
  difference, false, get_or, length, list_key, nat_key, not, option_key, pair_key, refl, some, sort,
  string_key, subst, suc, sym, text_leb, true, zero, ℕ, ◌&&◌, ◌==◌, ◌||◌, ◌∙◌, ◌≡◌,
}
use auto_xdp.AbuseIpdb.{
  Entry, Replaced, RiskMaps, activated, delete_entry, invalid, normalize_v4, removed_stale,
  replace_all, replaced, roll_back, rolled_back, set_active, set_entry, stage, staged_new,
}
use auto_xdp.AbuseIpdb.Rollback.{
  contains-roll_back, contains-stage_delete, contains-stage_set, stage-all, stage-past,
}
use auto_xdp.Bpf.Kernel.{KernelMap}
use auto_xdp.Bpf.LpmMap.{LpmMap}
use auto_xdp.Bpf.Runtime.{cfg_flag_abuseipdb_enabled, get_cfg_flags}
use auto_xdp.State.{RuntimeConfig}

module _ (networks : KernelMap String ℕ) (runtime : KernelMap ℕ (RuntimeConfig × ℕ)) where
  -- what an outcome says of the blocklist, from the old one and the wanted one
  abbrev IsOutcome :
      List String → List String → Replaced networks runtime × RiskMaps networks runtime → Type 0
  IsOutcome previous target (replaced n, r) =
      (n ≡ length target) × ((x : String) → contains x r.map4.cache ≡ contains x target)
  IsOutcome previous target (invalid, r) =
      (x : String) → contains x r.map4.cache ≡ contains x previous
  IsOutcome previous target (rolled_back zero, r) =
      (x : String) → contains x r.map4.cache ≡ contains x previous
  IsOutcome previous target (rolled_back (suc n), r) = Unit

  -- how far the replacement has come: `added` is new, `removed` was there
  record Staged (previous added removed : List String) (m : LpmMap.LpmMap networks) : Type 0 where
    holds :
        (x : String)
        → contains x m.cache
          ≡ ((contains x added || contains x previous) && not (contains x removed))
    new : (x : String) → contains x added ≡ true → contains x previous ≡ false
    old : (x : String) → contains x removed ≡ true → contains x previous ≡ true

  rolled-IsOutcome :
      (previous target added removed : List String) (was : Bool) (m : LpmMap.LpmMap networks)
      (s : runtime.State)
      → Staged previous added removed m
      → (result : ℕ × RiskMaps networks runtime)
      → roll_back networks runtime added removed was m s ≡ result
      → IsOutcome previous target (rolled_back result.0, result.1)
  rolled-IsOutcome previous target added removed was m s h (suc n, r) e = tt
  rolled-IsOutcome previous target added removed was m s h (zero, r) e = λ x.
      sym (ap (λ q. contains x q.1.map4.cache) e)
      ∙ ground (
        arith,
        contains-roll_back networks runtime added removed was m s x (ap (λ q. q.0) e),
        h.holds x,
        h.new x,
        h.old x,
      )

  activated-IsOutcome :
      (previous target added removed : List String) (was : Bool) (m : LpmMap.LpmMap networks)
      (r : Bool × runtime.State)
      → Staged previous added removed m
      → ((x : String) → contains x m.cache ≡ contains x target)
      → IsOutcome previous target (activated networks runtime target added removed was m r)
  unfolding activated
  activated-IsOutcome previous target added removed was m (true, s) h full = (refl, full)
  activated-IsOutcome previous target added removed was m (false, s) h full =
      rolled-IsOutcome previous target added removed was m s h
        (roll_back networks runtime added removed was m s) refl

  removed_stale-IsOutcome :
      (previous target added : List String) (was : Bool) (s : runtime.State)
      (r : Bool × List String × LpmMap.LpmMap networks)
      → Staged previous added r.1 r.2
      → (r.0 ≡ true → (x : String) → contains x r.2.cache ≡ contains x target)
      → IsOutcome previous target (removed_stale networks runtime target added was s r)
  unfolding removed_stale
  removed_stale-IsOutcome previous target added was s (true, removed, m) h full =
      activated-IsOutcome previous target added removed was m
        (set_active networks runtime (not (target == [])) s) h (full refl)
  removed_stale-IsOutcome previous target added was s (false, removed, m) h full =
      rolled-IsOutcome previous target added removed was m s h
        (roll_back networks runtime added removed was m s) refl

  staged_new-IsOutcome :
      (target previous : List String) (was : Bool) (s : runtime.State)
      (r : Bool × List String × LpmMap.LpmMap networks)
      → Staged previous r.1 [] r.2
      → (r.0 ≡ true → (x : String) → contains x r.1 ≡ contains x (difference target previous))
      → IsOutcome previous target (staged_new networks runtime target previous was s r)
  unfolding staged_new contains
  staged_new-IsOutcome target previous was s (false, added, m) h all =
      rolled-IsOutcome previous target added [] was m s h
        (roll_back networks runtime added [] was m s) refl
  staged_new-IsOutcome target previous was s (true, added, m) h all =
      let stale = sort text_leb (difference previous target) in
      let op = delete_entry networks runtime in
      removed_stale-IsOutcome previous target added was s (stage op stale m)
        (record {
          holds = λ x. ground (arith, h.holds x, contains-stage_delete networks runtime stale m x);
          new = h.new;
          old = λ x done_x. ground (
            arith,
            stage-past networks runtime op stale m x done_x,
            contains-sort text_leb x (difference previous target),
            contains-difference x previous target,
          );
        })
        (λ went x. ground (
          arith,
          h.holds x,
          all refl x,
          contains-stage_delete networks runtime stale m x,
          stage-all networks runtime op stale m x went,
          contains-sort text_leb x (difference previous target),
          contains-difference x previous target,
          contains-difference x target previous,
        ))

  -- `previous` and what the input asks for
  replace_all-IsOutcome :
      (parse : String → Entry) (ips target : List String) (r : RiskMaps networks runtime)
      → normalize_v4 parse [] ips ≡ some target
      → IsOutcome r.map4.cache target (replace_all networks runtime parse ips r)
  unfolding replace_all contains
  replace_all-IsOutcome parse ips target r e =
      let previous = r.map4.cache in
      let fresh = sort text_leb (difference target previous) in
      let op = set_entry networks runtime in
      rw (replace_all, e)
        (staged_new-IsOutcome target previous
          (not (
            bit_and (get_or (get_cfg_flags runtime r.runtime_cfg).0 0) cfg_flag_abuseipdb_enabled
            == 0))
          (get_cfg_flags runtime r.runtime_cfg).1 (stage op fresh r.map4)
          (record {
            holds = λ x. ground (arith, contains-stage_set networks runtime fresh r.map4 x);
            new = λ x done_x. ground (
              arith,
              stage-past networks runtime op fresh r.map4 x done_x,
              contains-sort text_leb x (difference target previous),
              contains-difference x target previous,
            );
            old = λ x none_x. absurd (cc);
          })
          (λ went x.
            stage-all networks runtime op fresh r.map4 x went
            ∙ contains-sort text_leb x (difference target previous)))

  -- A replacement that returns leaves exactly the wanted networks in the set and returns their
  -- number.
  pub replace_all_replaces :
      (parse : String → Entry) (ips target : List String) (r r' : RiskMaps networks runtime) (n : ℕ)
      → normalize_v4 parse [] ips ≡ some target
      → replace_all networks runtime parse ips r ≡ (replaced n, r')
      → (n ≡ length target) × ((x : String) → contains x r'.map4.cache ≡ contains x target)
  replace_all_replaces parse ips target r r' n e h =
      subst (IsOutcome r.map4.cache target) h (replace_all-IsOutcome parse ips target r e)

  -- A replacement that fails on the way, wherever that is, and whose roll-back logs no failure,
  -- leaves the set with exactly the networks that it had.
  pub replace_all_rolls_back :
      (parse : String → Entry) (ips target : List String) (r r' : RiskMaps networks runtime)
      → normalize_v4 parse [] ips ≡ some target
      → replace_all networks runtime parse ips r ≡ (rolled_back 0, r')
      → (x : String) → contains x r'.map4.cache ≡ contains x r.map4.cache
  replace_all_rolls_back parse ips target r r' e h =
      subst (IsOutcome r.map4.cache target) h (replace_all-IsOutcome parse ips target r e)
