-- ===== src/Bpf/Conntrack/Ports.antt =====
-- Flows of closed ports, and the question which flows the kernel has.
use auto_xdp.Base.{
  ==_iff, Bool-cases, List, [], arith, bool_key, contains, contains-add, contains-discard,
  contains-filter, contains_nil, false, filter, inl, inr, is_some, length, list_key, nat_key, not,
  option_key, pair_key, refl, string_key, true, ℕ, ◌&&◌, ◌==◌, ◌∷◌, ◌≡◌, ◌≤◌, ◌⊎◌,
}
use auto_xdp.Bpf.Conntrack.{
  ConntrackMap, delete, delete_dest_ports, delete_each, dest_port, existing_from, existing_key,
  existing_keys,
}
use auto_xdp.Bpf.Kernel.{KernelMap, Reply-cases, enoent, other_errno}
use auto_xdp.State.{Bytes}

module _ (kernel : KernelMap Bytes ℕ) where
  cache-delete :
      (key : Bytes) (m : ConntrackMap kernel) (j : Bytes)
      → contains j (delete kernel key false m).1.cache
        ≡ (contains j m.cache && not ((delete kernel key false m).0 && j == key))
  unfolding delete
  cache-delete key m j = ground (arith, contains-discard j key m.cache)

  delete_each_cache :
      (flows : List Bytes) (m : ConntrackMap kernel) (j : Bytes)
      → contains j flows ≡ false
      → contains j (delete_each kernel flows false m).1.cache ≡ contains j m.cache
  unfolding delete_each contains
  delete_each_cache [] m j h = refl
  delete_each_cache (key ∷ flows) m j h = ground (
    arith,
    ==_iff key j,
    ==_iff j key,
    delete_each_cache flows (delete kernel key false m).1 j (ground arith),
    cache-delete key m j,
  )

  delete_each_le :
      (flows : List Bytes) (m : ConntrackMap kernel)
      → (delete_each kernel flows false m).0 ≤ length flows
  unfolding delete_each
  delete_each_le [] m = omega arith
  delete_each_le (key ∷ flows) m =
      ground (arith, delete_each_le flows (delete kernel key false m).1)

  -- a key that is gone stays gone
  delete_each_gone :
      (flows : List Bytes) (m : ConntrackMap kernel) (j : Bytes)
      → contains j m.cache ≡ false
      → contains j (delete_each kernel flows false m).1.cache ≡ false
  unfolding delete_each
  delete_each_gone [] m j h = h
  delete_each_gone (key ∷ flows) m j h =
      delete_each_gone flows (delete kernel key false m).1 j (ground (arith, cache-delete key m j))

  delete_each_all :
      (flows : List Bytes) (m : ConntrackMap kernel) (j : Bytes)
      → (delete_each kernel flows false m).0 ≡ length flows
      → contains j flows ≡ true
      → contains j (delete_each kernel flows false m).1.cache ≡ false
  unfolding delete_each contains
  delete_each_all [] m j n h = absurd (cc)
  delete_each_all (key ∷ flows) m j n h =
      let m' = (delete kernel key false m).1 in
      let fine : (delete kernel key false m).0 ≡ true = ground (arith, delete_each_le flows m') in
      elim (Bool-cases (key == j)) [
        | inl same ↦
            delete_each_gone flows m' j
              (ground (arith, fine, same, ==_iff key j, ==_iff j key, cache-delete key m j))
        | inr away ↦ delete_each_all flows m' j (ground (arith, fine)) (ground arith)
      ]

  delete_dest_ports_exact :
      (ports : List ℕ) (m : ConntrackMap kernel) (j : Bytes)
      → let (deleted, m') = delete_dest_ports kernel ports false m in
        (contains (dest_port j) ports ≡ false → contains j m'.cache ≡ contains j m.cache)
        × (contains (dest_port j) ports ≡ true
            → deleted ≡ length (filter (λ key. contains (dest_port key) ports) m.cache)
            → contains j m'.cache ≡ false)
  unfolding delete_dest_ports
  delete_dest_ports_exact ports m j = elim (Bool-cases (ports == [])) [
    | inl empty ↦ rw empty (λ h. refl, λ h n. absurd (none_in_empty h empty))
    | inr some_port ↦ rw some_port (
      λ h.
          delete_each_cache matches m j
            (ground (arith, h, contains-filter j (λ key. contains (dest_port key) ports) m.cache)),
      λ h n. elim (Bool-cases (contains j m.cache)) [
        | inl cached ↦ delete_each_all matches m j n (
            ground
              (arith, h, cached, contains-filter j (λ key. contains (dest_port key) ports) m.cache))
        | inr missing ↦ delete_each_gone matches m j missing
      ],
    )
  ]
    where
      matches : List Bytes
      matches = filter (λ key. contains (dest_port key) ports) m.cache

      none_in_empty : contains (dest_port j) ports ≡ true → (ports == []) ≡ true → ⊥
      none_in_empty h e = ground (arith, contains_nil (dest_port j) ports e)

  -- Closing ports drops flows to those ports alone: a cached flow to another port stays cached.
  pub delete_dest_ports_spares :
      (ports : List ℕ) (m : ConntrackMap kernel) (j : Bytes)
      → contains (dest_port j) ports ≡ false
      → contains j (delete_dest_ports kernel ports false m).1.cache ≡ contains j m.cache
  delete_dest_ports_spares ports m j h = (delete_dest_ports_exact ports m j).0 h

  -- Where as many deletions went through as there are cached flows to the closed ports, no flow to
  -- one of those ports is left in the cache.
  pub delete_dest_ports_clears :
      (ports : List ℕ) (m : ConntrackMap kernel) (j : Bytes)
      → contains (dest_port j) ports ≡ true
      → (delete_dest_ports kernel ports false m).0
        ≡ length (filter (λ key. contains (dest_port key) ports) m.cache)
      → contains j (delete_dest_ports kernel ports false m).1.cache ≡ false
  delete_dest_ports_clears ports m j h n = (delete_dest_ports_exact ports m j).1 h n

  -- where a key that is found may come from
  abbrev Known : ConntrackMap kernel → Bytes → Type 0
  Known m j = (is_some (kernel.read m.kernel j) ≡ true) ⊎ (contains j m.cache ≡ true)

  module _ (key : Bytes) (present : List Bytes) (m : ConntrackMap kernel) (j : Bytes) where
    after : List Bytes × ConntrackMap kernel
    after = existing_key kernel key (present, m) (kernel.lookup_elem key m.kernel)

    existing_key_present :
        contains j after.0 ≡ true → (contains j present ≡ true) ⊎ (((key == j) ≡ true) × Known m j)
    unfolding after existing_key
    existing_key_present h = elim (Reply-cases (kernel.lookup_elem key m.kernel).0) [
      | inl (v, e) ↦
          ground (
            arith,
            e,
            ==_iff key j,
            kernel.lookup_done key v m.kernel e,
            contains-add j key present,
          )
      | inr (enoent, e) ↦ ground (arith, e)
      | inr (other_errno n, e) ↦ ground (arith, e, ==_iff key j, contains-add j key present)
    ]

    existing_key-Known : Known after.1 j → Known m j
    unfolding after existing_key
    existing_key-Known h = elim (Reply-cases (kernel.lookup_elem key m.kernel).0) [
      | inl (v, e) ↦ ground (
        arith,
        e,
        ==_iff key j,
        kernel.lookup_done key v m.kernel e,
        kernel.lookup_keeps key j m.kernel,
        contains-add j key m.cache,
      )
      | inr (enoent, e) ↦
          ground (arith, e, kernel.lookup_keeps key j m.kernel, contains-discard j key m.cache)
      | inr (other_errno n, e) ↦ ground (arith, e, kernel.lookup_keeps key j m.kernel)
    ]

  existing_from_sound :
      (flows : List Bytes) (present : List Bytes) (m : ConntrackMap kernel) (j : Bytes)
      → contains j (existing_from kernel flows (present, m)).0 ≡ true
      → (contains j present ≡ true) ⊎ ((contains j flows ≡ true) × Known m j)
  unfolding existing_from contains
  existing_from_sound [] present m j h = inl h
  existing_from_sound (key ∷ flows) present m j h =
      let next = after key present m j in
      elim (existing_from_sound flows next.0 next.1 j (unfold after in h)) [
        | inl here ↦ elim (existing_key_present key present m j here) [
          | inl old ↦ inl old
          | inr (same, known) ↦ inr (ground arith, known)
        ]
        | inr (later, known) ↦ inr (ground arith, existing_key-Known key present m j known)
      ]

  -- Every flow reported as existing is one of those asked for, and the kernel's map has it, or the
  -- lookup failed and the cache had it.
  pub existing_keys_sound :
      (flows : List Bytes) (m : ConntrackMap kernel) (j : Bytes)
      → contains j (existing_keys kernel flows m).0 ≡ true
      → (contains j flows ≡ true)
        × ((is_some (kernel.read m.kernel j) ≡ true) ⊎ (contains j m.cache ≡ true))
  unfolding existing_keys contains
  existing_keys_sound flows m j h = elim (existing_from_sound flows [] m j h) [
    | inl e ↦ absurd (cc)
    | inr found ↦ found
  ]
