-- ===== src/Bpf/RateOuter.antt =====
-- `BpfRateOuterMap` of auto_xdp/bpf/maps.py: a slot to each port with an inner map of its own. What
-- a slot holds is modelled by the inner map's capacity; `create` is `map_create`, which the kernel
-- may refuse.
use auto_xdp.Base.{
  Bool, Dict, arith, bool_key, erase, false, if◌then◌else◌, insert, is_some, list_key, lookup,
  lookup-erase, lookup-insert, nat_key, none, not, option_eq_iff, option_key, pair_key, some,
  string_key, true, ℕ, ◌&&◌, ◌==◌, ◌≡◌,
}
use auto_xdp.Bpf.Kernel.{Cached, KernelMap, Reply, done, enoent, fails, other_errno}

module _ (kernel : KernelMap ℕ ℕ) (create : ℕ → kernel.State → Bool × kernel.State) where
  abbrev pub RateOuterMap : Type 0
  RateOuterMap = Cached kernel.State (Dict ℕ ℕ)

  update_slot : ℕ → ℕ → RateOuterMap → Reply (Unit {0}) × kernel.State → Bool × RateOuterMap
  update_slot port capacity m (done _, s) =
      (true, record { kernel = s; cache = insert port capacity m.cache })
  update_slot port capacity m (fails e, s) = (false, record m { kernel = s })

  created : ℕ → ℕ → RateOuterMap → Bool × kernel.State → Bool × RateOuterMap
  unfolding update_slot
  created port capacity m (false, s) = (false, record m { kernel = s })
  created port capacity m (true, s) =
      update_slot port capacity m (kernel.update_elem port capacity s)

  unfoldable pub set : ℕ → ℕ → Bool → RateOuterMap → Bool × RateOuterMap
  unfolding created
  set port capacity dry_run m =
      if lookup port m.cache == some capacity
      then (true, m)
      else if dry_run
      then (true, m)
      else created port capacity m (create capacity m.kernel)

  delete_slot : ℕ → RateOuterMap → Reply (Unit {0}) × kernel.State → Bool × RateOuterMap
  delete_slot port m (done _, s) = (true, record { kernel = s; cache = erase port m.cache })
  delete_slot port m (fails enoent, s) = (true, record { kernel = s; cache = erase port m.cache })
  delete_slot port m (fails (other_errno n), s) = (false, record m { kernel = s })

  unfoldable pub delete : ℕ → Bool → RateOuterMap → Bool × RateOuterMap
  unfolding delete_slot
  delete port dry_run m =
      if not (is_some (lookup port m.cache))
      then (true, m)
      else if dry_run
      then (true, m)
      else delete_slot port m (kernel.delete_elem port m.kernel)

  -- The slot of the written port holds the new capacity if that is reported as done outside
  -- `dry_run`; every other slot, and all of them otherwise, are as before.
  pub lookup-set :
      (port capacity : ℕ) (dry_run : Bool) (m : RateOuterMap) (p : ℕ)
      → lookup p (set port capacity dry_run m).1.cache ≡ (
          if (set port capacity dry_run m).0 && not dry_run && port == p
          then some capacity
          else lookup p m.cache)
  unfolding set
  lookup-set port capacity dry_run m p = ground (
    arith,
    option_eq_iff (lookup port m.cache) (some capacity),
    lookup-insert p port capacity m.cache,
  )

  pub lookup-delete :
      (port : ℕ) (dry_run : Bool) (m : RateOuterMap) (p : ℕ)
      → lookup p (delete port dry_run m).1.cache
        ≡ (if (delete port dry_run m).0 && not dry_run && port == p then none else lookup p m.cache)
  unfolding delete
  lookup-delete port dry_run m p = ground (arith, lookup-erase p port m.cache)
