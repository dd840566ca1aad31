-- ===== src/Bpf/PortPolicy/Coherence.antt =====
-- The cache of a policy map holds what the kernel's map holds.
use auto_xdp.Base.{
  Bool, Bool-cases, List, Option-cases, [], arith, bool_key, false, get_or, inl, inr, list_key,
  lookup, lookup-erase, lookup-insert, nat_key, option_key, pair_key, string_key, true, ℕ, ◌∷◌, ◌≡◌,
}
use auto_xdp.Bpf.Kernel.{KernelMap, Reply-cases, enoent, other_errno}
use auto_xdp.Bpf.PortPolicy.{
  Field, Fields, PortPolicyMap, blank, delete, ensure_prefix, ensure_prefixes, fields_eq,
  head_is_zero, set_field, set_fields, store, view_delete, view_set,
}

module _ (kernel : KernelMap ℕ Fields) where
  -- each port's record in the cache is the kernel's
  abbrev pub IsCoherent : PortPolicyMap kernel → Type 0
  IsCoherent m = (p : ℕ) → lookup p m.cache ≡ kernel.read m.kernel p

  set_fields-IsCoherent :
      (port : ℕ) (r : Fields) (dry_run : Bool) (m : PortPolicyMap kernel)
      → IsCoherent m
      → IsCoherent (set_fields kernel port r dry_run m).1
  unfolding set_fields
  set_fields-IsCoherent port r true m h = h
  set_fields-IsCoherent port r false m h =
      elim (Reply-cases (kernel.update_elem port r m.kernel).0) [
        | inl (a, e) ↦ λ p.
            ground (
              arith,
              e,
              h p,
              kernel.update_done port p r m.kernel e,
              lookup-insert p port r m.cache,
            )
        | inr (err, e) ↦ λ p. ground (arith, e, h p, kernel.update_fails port p r m.kernel err e)
      ]

  delete-IsCoherent :
      (port : ℕ) (dry_run : Bool) (m : PortPolicyMap kernel)
      → IsCoherent m
      → IsCoherent (delete kernel port dry_run m).1
  unfolding delete
  delete-IsCoherent port true m h = h
  delete-IsCoherent port false m h = elim (Reply-cases (kernel.delete_elem port m.kernel).0) [
    | inl (a, e) ↦ λ p.
        ground (arith, e, h p, kernel.delete_done port p m.kernel e, lookup-erase p port m.cache)
    | inr (enoent, e) ↦ λ p. ground (
      arith,
      e,
      h p,
      kernel.delete_fails port p m.kernel enoent e,
      kernel.delete_enoent port m.kernel e,
      lookup-erase p port m.cache,
    )
    | inr (other_errno n, e) ↦
        λ p. ground (arith, e, h p, kernel.delete_fails port p m.kernel (other_errno n) e)
  ]

  store-IsCoherent :
      (port : ℕ) (r : Fields) (dry_run : Bool) (m : PortPolicyMap kernel)
      → IsCoherent m
      → IsCoherent (store kernel port r dry_run m).1
  unfolding store
  store-IsCoherent port r dry_run m h = elim (Bool-cases (head_is_zero r)) [
    | inl zeros ↦ rw zeros (delete-IsCoherent port dry_run m h)
    | inr limits ↦ rw limits (set_fields-IsCoherent port r dry_run m h)
  ]

  ensure_prefix-IsCoherent :
      (prefix_v4 prefix_v6 : ℕ) (dry_run : Bool) (port : ℕ) (m : PortPolicyMap kernel)
      → IsCoherent m
      → IsCoherent (ensure_prefix kernel prefix_v4 prefix_v6 dry_run port m)
  unfolding ensure_prefix
  ensure_prefix-IsCoherent prefix_v4 prefix_v6 dry_run port m h =
      elim (Option-cases (lookup port m.cache)) [
        | inl absent ↦ rw (absent, ensure_prefix) h
        | inr (current, found) ↦
            let fields : Fields = record current { prefix_v4 = prefix_v4; prefix_v6 = prefix_v6 } in
            elim (Bool-cases (fields_eq fields current)) [
              | inl same ↦ rw (found, ensure_prefix) (rw same h)
              | inr new ↦
                  rw (found, ensure_prefix) (rw new (set_fields-IsCoherent port fields dry_run m h))
            ]
      ]

  ensure_prefixes-IsCoherent :
      (ports : List ℕ) (prefix_v4 prefix_v6 : ℕ) (dry_run : Bool) (m : PortPolicyMap kernel)
      → IsCoherent m
      → IsCoherent (ensure_prefixes kernel ports prefix_v4 prefix_v6 dry_run m)
  unfolding ensure_prefixes
  ensure_prefixes-IsCoherent [] prefix_v4 prefix_v6 dry_run m h = h
  ensure_prefixes-IsCoherent (port ∷ ports) prefix_v4 prefix_v6 dry_run m h =
      ensure_prefixes-IsCoherent ports prefix_v4 prefix_v6 dry_run
        (ensure_prefix kernel prefix_v4 prefix_v6 dry_run port m)
        (ensure_prefix-IsCoherent prefix_v4 prefix_v6 dry_run port m h)

  view_delete-IsCoherent :
      (f : Field) (port : ℕ) (dry_run : Bool) (m : PortPolicyMap kernel)
      → IsCoherent m
      → IsCoherent (view_delete kernel f port dry_run m).1
  unfolding view_delete
  view_delete-IsCoherent f port dry_run m h = elim (Option-cases (lookup port m.cache)) [
    | inl absent ↦ rw (absent, view_delete) (delete-IsCoherent port dry_run m h)
    | inr (current, found) ↦
        rw (found, view_delete) (store-IsCoherent port (set_field f 0 current) dry_run m h)
  ]

  -- Every operation on a policy map keeps its cache equal to the kernel's map, whether the kernel
  -- carries a command out or refuses it: a write or a deletion through a view, and the pass that
  -- brings the source prefixes of many ports up to date.
  pub policy_operations-IsCoherent :
      (prefix_v4 prefix_v6 : ℕ) (f : Field) (port v : ℕ) (ports : List ℕ) (dry_run : Bool)
      (m : PortPolicyMap kernel)
      → IsCoherent m
      → IsCoherent (view_set kernel prefix_v4 prefix_v6 f port v dry_run m).1
        × IsCoherent (view_delete kernel f port dry_run m).1
        × IsCoherent (ensure_prefixes kernel ports prefix_v4 prefix_v6 dry_run m)
  unfolding view_set
  policy_operations-IsCoherent prefix_v4 prefix_v6 f port v ports dry_run m h = (
    store-IsCoherent port (set_field f v (get_or (lookup port m.cache) (blank prefix_v4 prefix_v6)))
        dry_run m h,
    view_delete-IsCoherent f port dry_run m h,
    ensure_prefixes-IsCoherent ports prefix_v4 prefix_v6 dry_run m h,
  )
