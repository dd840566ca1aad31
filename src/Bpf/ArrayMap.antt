-- ===== src/Bpf/ArrayMap.antt =====
-- `BpfArrayMap` of auto_xdp/bpf/maps.py: the port whitelists. A port is admitted when its slot
-- holds a number other than zero; `cache` is the set of admitted ports.
use auto_xdp.Base.{
  Bool, List, Option, add, arith, bool_key, contains, contains-add, contains-discard, discard,
  false, if◌then◌else◌, inl, inr, list_key, nat_key, none, not, option_key, pair_key, refl, some,
  string_key, true, ℕ, ◌&&◌, ◌==◌, ◌≡◌,
}
use auto_xdp.Bpf.Kernel.{Cached, KernelMap, Reply, Reply-cases, done, fails}

-- `if value:` on the number in a slot
abbrev pub is_on : Option ℕ → Bool
is_on none = false
is_on (some v) = not (v == 0)

module _ (kernel : KernelMap ℕ ℕ) where
  abbrev pub ArrayMap : Type 0
  ArrayMap = Cached kernel.State (List ℕ)

  unfoldable pub active_ports : ArrayMap → List ℕ
  active_ports m = m.cache

  -- `get`: whether the cache has the port
  unfoldable pub get : ℕ → ArrayMap → ℕ
  get port m = if contains port m.cache then 1 else 0

  set_reply : ℕ → ℕ → ArrayMap → Reply (Unit {0}) × kernel.State → Bool × ArrayMap
  set_reply port val m (done _, s) = (
    true,
    record { kernel = s; cache = if val == 0 then discard port m.cache else add port m.cache },
  )
  set_reply port val m (fails e, s) = (false, record m { kernel = s })

  unfoldable pub set : ℕ → ℕ → Bool → ArrayMap → Bool × ArrayMap
  unfolding set_reply
  set port val dry_run m =
      if dry_run then (true, m) else set_reply port val m (kernel.update_elem port val m.kernel)

  -- the cache has exactly the ports whose slot is on
  abbrev pub IsCoherent : ArrayMap → Type 0
  IsCoherent m = (p : ℕ) → contains p m.cache ≡ is_on (kernel.read m.kernel p)

  set-IsCoherent :
      (port val : ℕ) (dry_run : Bool) (m : ArrayMap)
      → IsCoherent m
      → IsCoherent (set port val dry_run m).1
  unfolding set
  set-IsCoherent port val true m h = h
  set-IsCoherent port val false m h = elim (Reply-cases (kernel.update_elem port val m.kernel).0) [
    | inl (a, e) ↦ λ p. ground (
      arith,
      e,
      h p,
      kernel.update_done port p val m.kernel e,
      contains-add p port m.cache,
      contains-discard p port m.cache,
    )
    | inr (err, e) ↦ λ p. ground (arith, e, h p, kernel.update_fails port p val m.kernel err e)
  ]

  -- A write that is reported as done changes the one port, and one reported as failed or under
  -- `dry_run` changes none.
  pub contains-set :
      (port val : ℕ) (dry_run : Bool) (m : ArrayMap) (p : ℕ)
      → contains p (active_ports (set port val dry_run m).1) ≡ (
          if (set port val dry_run m).0 && not dry_run && port == p
          then not (val == 0)
          else contains p (active_ports m))
  unfolding set active_ports
  contains-set port val true m p = refl
  contains-set port val false m p = elim (Reply-cases (kernel.update_elem port val m.kernel).0) [
    | inl (a, e) ↦ ground (arith, e, contains-add p port m.cache, contains-discard p port m.cache)
    | inr (err, e) ↦ ground (arith, e)
  ]
