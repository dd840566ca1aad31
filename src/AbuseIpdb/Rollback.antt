-- ===== src/AbuseIpdb/Rollback.antt =====
-- `BpfRiskMaps.replace_all` of auto_xdp/abuseipdb.py: all or nothing.
use auto_xdp.Bpf.LpmMap
use auto_xdp.Base.{
  ==_iff, Bool, List, String, [], arith, bool_key, contains, false, list_key, nat_key, not,
  option_key, pair_key, refl, string_key, true, ℕ, ◌&&◌, ◌||◌, ◌∷◌, ◌≡◌,
}
use auto_xdp.AbuseIpdb.{delete_entry, reverse, roll_back, set_entry, stage}
use auto_xdp.Bpf.Kernel.{KernelMap, sweep, sweep_clean}
use auto_xdp.Bpf.LpmMap.{LpmMap}
use auto_xdp.State.{RuntimeConfig}

module _ (networks : KernelMap String ℕ) (runtime : KernelMap ℕ (RuntimeConfig × ℕ)) where
  -- a staged loop adds what it reports as done, and nothing else
  pub contains-stage_set :
      (cidrs : List String) (m : LpmMap.LpmMap networks) (x : String)
      → let (all, past, m') = stage (set_entry networks runtime) cidrs m in
        contains x m'.cache ≡ (contains x past || contains x m.cache)
  unfolding stage contains
  contains-stage_set [] m x = refl
  contains-stage_set (cidr ∷ cidrs) m x = ground (
    arith,
    LpmMap.contains-set networks (λ text. text) cidr 0 false m x,
    contains-stage_set cidrs (set_entry networks runtime cidr m).1 x,
  )

  pub contains-stage_delete :
      (cidrs : List String) (m : LpmMap.LpmMap networks) (x : String)
      → let (all, past, m') = stage (delete_entry networks runtime) cidrs m in
        contains x m'.cache ≡ (contains x m.cache && not (contains x past))
  unfolding stage contains
  contains-stage_delete [] m x = ground arith
  contains-stage_delete (cidr ∷ cidrs) m x = ground (
    arith,
    ==_iff x cidr,
    ==_iff cidr x,
    LpmMap.contains-delete networks (λ text. text) cidr false m x,
    contains-stage_delete cidrs (delete_entry networks runtime cidr m).1 x,
  )

  -- what a staged loop did is among what it was to do, and all of it if it did not stop
  pub stage-past :
      {M : Type 0} (op : String → M → Bool × M) (cidrs : List String) (m : M) (x : String)
      → contains x (stage op cidrs m).1 ≡ true
      → contains x cidrs ≡ true
  unfolding stage contains
  stage-past op [] m x h = absurd (cc)
  stage-past op (cidr ∷ cidrs) m x h = ground (arith, stage-past op cidrs (op cidr m).1 x)

  pub stage-all :
      {M : Type 0} (op : String → M → Bool × M) (cidrs : List String) (m : M) (x : String)
      → (stage op cidrs m).0 ≡ true
      → contains x (stage op cidrs m).1 ≡ contains x cidrs
  unfolding stage contains
  stage-all op [] m x h = refl
  stage-all op (cidr ∷ cidrs) m x h = ground (arith, stage-all op cidrs (op cidr m).1 x)

  contains-reverse :
      (xs past : List String) (x : String)
      → contains x (reverse xs past) ≡ (contains x xs || contains x past)
  unfolding contains
  contains-reverse [] past x = refl
  contains-reverse (y ∷ xs) past x = ground (arith, contains-reverse xs (y ∷ past) x)

  contains-sweep_set :
      (cidrs : List String) (m : LpmMap.LpmMap networks) (x : String)
      → (sweep (set_entry networks runtime) cidrs m).0 ≡ 0
      → contains x (sweep (set_entry networks runtime) cidrs m).1.cache
        ≡ (contains x cidrs || contains x m.cache)
  unfolding sweep contains
  contains-sweep_set [] m x h = refl
  contains-sweep_set (cidr ∷ cidrs) m x h =
      let (fine, rest) = sweep_clean (set_entry networks runtime) cidr cidrs m h in
      ground (
        arith,
        fine,
        LpmMap.contains-set networks (λ text. text) cidr 0 false m x,
        contains-sweep_set cidrs (set_entry networks runtime cidr m).1 x rest,
      )

  contains-sweep_delete :
      (cidrs : List String) (m : LpmMap.LpmMap networks) (x : String)
      → (sweep (delete_entry networks runtime) cidrs m).0 ≡ 0
      → contains x (sweep (delete_entry networks runtime) cidrs m).1.cache
        ≡ (contains x m.cache && not (contains x cidrs))
  unfolding sweep contains
  contains-sweep_delete [] m x h = ground arith
  contains-sweep_delete (cidr ∷ cidrs) m x h =
      let (fine, rest) = sweep_clean (delete_entry networks runtime) cidr cidrs m h in
      ground (
        arith,
        fine,
        ==_iff x cidr,
        ==_iff cidr x,
        LpmMap.contains-delete networks (λ text. text) cidr false m x,
        contains-sweep_delete cidrs (delete_entry networks runtime cidr m).1 x rest,
      )

  -- the set after a roll-back that logs no failure
  pub contains-roll_back :
      (added removed : List String) (was : Bool) (m : LpmMap.LpmMap networks) (s : runtime.State)
      (x : String)
      → (roll_back networks runtime added removed was m s).0 ≡ 0
      → contains x (roll_back networks runtime added removed was m s).1.map4.cache
        ≡ (contains x removed || contains x m.cache && not (contains x added))
  unfolding roll_back contains
  contains-roll_back added removed was m s x h =
      let m1 = (sweep (delete_entry networks runtime) (reverse added []) m).1 in
      let first : (sweep (delete_entry networks runtime) (reverse added []) m).0 ≡ 0 =
        omega (arith, h) in
      let second : (sweep (set_entry networks runtime) removed m1).0 ≡ 0 = omega (arith, h) in
      ground (
        arith,
        contains-sweep_delete (reverse added []) m x first,
        contains-sweep_set removed m1 x second,
        contains-reverse added [] x,
      )
