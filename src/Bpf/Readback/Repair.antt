-- ===== src/Bpf/Readback/Repair.antt =====
-- `verify` of BpfArrayMap in auto_xdp/bpf/maps.py on a cache that has drifted.
use auto_xdp.Base.{
  Bool-cases, List, Option, [], ap, arith, bool_key, contains, contains-difference, difference,
  eqb_refl, false, inl, inr, leb, length, list_key, nat_key, none, not, option_key, pair_key, refl,
  set_eq, set_eq-contains, some, string_key, subset, subset_complete, sym, true, ℕ, ◌&&◌, ◌+◌, ◌==◌,
  ◌↔◌, ◌∙◌, ◌∷◌, ◌≡◌, ◌⊎◌,
}
use auto_xdp.Bpf.ArrayMap.{ArrayMap, IsCoherent, is_on}
use auto_xdp.Bpf.Kernel.{Errno, KernelMap, Reply, done, enoent, fails, other_errno}
use auto_xdp.Bpf.Readback.{BatchReader, copied, ports_on, read_kernel, verify}
use auto_xdp.Bpf.Readback.Scan.{contains-scan, ports_on_complete, ports_on_sound, scan_keeps}

empty_contains : (x : ℕ) (s : List ℕ) → length s ≡ 0 → contains x s ≡ false
unfolding contains
empty_contains x [] h = refl
empty_contains x (y ∷ s) h = ground (arith, h)

no_drift_subset : (a b : List ℕ) → length (difference a b) ≡ 0 → subset a b ≡ true
no_drift_subset a b h =
    subset_complete a b
      (λ x m. ground (arith, m, contains-difference x a b, empty_contains x (difference a b) h))

no_drift :
    (a b : List ℕ) → length (difference a b) + length (difference b a) ≡ 0 → set_eq a b ≡ true
unfolding set_eq
no_drift a b h =
    let first = no_drift_subset a b (omega arith) in
    let second = no_drift_subset b a (omega arith) in ground (arith, first, second)

same_set : (a b : List ℕ) → ((x : ℕ) → contains x a ≡ contains x b) → set_eq a b ≡ true
unfolding set_eq
same_set a b h =
    let first = subset_complete a b (λ x m. sym (h x) ∙ m) in
    let second = subset_complete b a (λ x m. h x ∙ m) in ground (arith, first, second)

-- slots that are copied as the map holds them
contains-ports_on :
    (p : ℕ) (o : Option ℕ) (slots : List (ℕ × ℕ))
    → ((v : ℕ) → contains (p, v) slots ≡ (o == some v))
    → contains p (ports_on slots) ≡ is_on o
contains-ports_on p none slots h = elim (Bool-cases (contains p (ports_on slots))) [
  | inl there ↦ let (v, c, on) = ports_on_sound p slots there in ground (arith, c, h v)
  | inr away ↦ away
]
contains-ports_on p (some w) slots h = elim (Bool-cases (contains p (ports_on slots))) [
  | inl there ↦ let (v, c, on) = ports_on_sound p slots there in ground (arith, there, c, on, h v)
  | inr away ↦ elim (Bool-cases (w == 0)) [
    | inl off ↦ ground (arith, away, off)
    | inr on ↦ ground (arith, away, on, ports_on_complete p w slots (h w ∙ eqb_refl w) on)
  ]
]

module _ (kernel : KernelMap ℕ ℕ) (batch : BatchReader kernel) where
  copied_keeps :
      (reply : Reply (Unit {0})) (slots : List (ℕ × ℕ)) (p : ℕ) (s : kernel.State)
      → kernel.read (copied kernel batch reply slots s).1 p ≡ kernel.read s p
  unfolding copied
  copied_keeps (done _) slots p s = refl
  copied_keeps (fails enoent) slots p s = refl
  copied_keeps (fails (other_errno e)) slots p s = scan_keeps kernel 0 batch.max_entries p s

  read_kernel_keeps :
      (p : ℕ) (s : kernel.State) → kernel.read (read_kernel kernel batch s).1 p ≡ kernel.read s p
  unfolding read_kernel
  read_kernel_keeps p s =
      copied_keeps (batch.lookup_batch s).0.0 (batch.lookup_batch s).0.1 p (batch.lookup_batch s).1
      ∙ batch.batch_keeps p s

  module _
      (lookup_ok : (i : ℕ) (e : Errno) (s : kernel.State)
        → (kernel.lookup_elem i s).0 ≡ fails e
        → e ≡ enoent) where
    contains-copied :
        (reply : Reply (Unit {0})) (slots : List (ℕ × ℕ)) (p : ℕ) (s : kernel.State)
        → ((v : ℕ)
            → (reply ≡ done tt) ⊎ (reply ≡ fails enoent)
            → contains (p, v) slots ≡ (kernel.read s p == some v))
        → contains p (copied kernel batch reply slots s).0 ≡ is_on (kernel.read s p)
    unfolding copied
    contains-copied (done tt) slots p s h =
        contains-ports_on p (kernel.read s p) slots (λ v. h v (inl refl))
    contains-copied (fails enoent) slots p s h =
        contains-ports_on p (kernel.read s p) slots (λ v. h v (inr refl))
    contains-copied (fails (other_errno e)) slots p s h =
        contains-scan kernel lookup_ok 0 batch.max_entries p s
        ∙ elim (Bool-cases (leb batch.max_entries p)) [
          | inl past ↦
              ap (λ o. leb 0 p && not (leb (0 + batch.max_entries) p) && is_on o)
                (batch.read_end p s past)
              ∙ (ground arith)
              ∙ ap is_on (sym (batch.read_end p s past))
          | inr inside ↦ ground (arith, inside)
        ]

    contains-read_kernel :
        (p : ℕ) (s : kernel.State)
        → contains p (read_kernel kernel batch s).0 ≡ is_on (kernel.read s p)
    unfolding read_kernel
    contains-read_kernel p s =
        contains-copied (batch.lookup_batch s).0.0 (batch.lookup_batch s).0.1 p
          (batch.lookup_batch s).1
          (λ v r. batch.batch_copies p v s r ∙ ap (λ o. o == some v) (sym (batch.batch_keeps p s)))
        ∙ ap is_on (batch.batch_keeps p s)

    -- The kernel's map is read back whole by the batch or, where the kernel has no batch, by the scan, in which a lookup fails only for a missing slot. Then `verify` leaves the kernel's map as it is, repairs the cache, and returns 0 exactly when the cache had no drift
    pub verify_repairs :
        (m : ArrayMap kernel)
        → ((p : ℕ) → kernel.read (verify kernel batch m).1.kernel p ≡ kernel.read m.kernel p)
          × IsCoherent kernel (verify kernel batch m).1
          × (((verify kernel batch m).0 ≡ 0) ↔ IsCoherent kernel m)
    unfolding verify
    verify_repairs m = elim (Bool-cases (set_eq ports m.cache)) [
      | inl same ↦
          rw same
            (kept, λ p. agrees same p ∙ ap is_on (sym (kept p)), (λ z. agrees same, λ c. refl))
      | inr drift ↦ rw drift (
        kept,
        λ p. whole p ∙ ap is_on (sym (kept p)),
        (
          λ z. absurd (unlike drift (no_drift ports m.cache z)),
          λ c. absurd (unlike drift (same_set ports m.cache (λ p. whole p ∙ sym (c p)))),
        ),
      )
    ]
      where
        ports : List ℕ
        ports = (read_kernel kernel batch m.kernel).0

        kept :
            (p : ℕ) → kernel.read (read_kernel kernel batch m.kernel).1 p ≡ kernel.read m.kernel p
        kept p = read_kernel_keeps p m.kernel

        whole : (p : ℕ) → contains p ports ≡ is_on (kernel.read m.kernel p)
        whole p = contains-read_kernel p m.kernel

        agrees :
            set_eq ports m.cache ≡ true
            → (p : ℕ) → contains p m.cache ≡ is_on (kernel.read m.kernel p)
        agrees same p = sym (set_eq-contains p ports m.cache same) ∙ whole p

        unlike : set_eq ports m.cache ≡ false → set_eq ports m.cache ≡ true → ⊥
        unlike a b = absurd (cc)
