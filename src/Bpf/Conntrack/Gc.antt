-- ===== src/Bpf/Conntrack/Gc.antt =====
-- The garbage collection of flows: what it evicts, and what it never evicts.
use auto_xdp.Base.{
  ==_iff, Bool, List, Option, [], arith, bool_key, contains, false, get_or, inl, inr, list_key,
  nat_key, option_key, pair_key, refl, some, string_key, true, ℕ, ◌+◌, ◌<◌, ◌==◌, ◌^◌, ◌↔◌, ◌∙◌,
  ◌∷◌, ◌≡◌, ◌≤◌, ◌⊎◌,
}
use auto_xdp.Bpf.Conntrack.{
  ConntrackMap, delete, delete_each, gc_expired, gc_walked, is_expired, stale_keys,
}
use auto_xdp.Bpf.Kernel.{KernelMap, Reply-cases, enoent, other_errno}
use auto_xdp.State.{Bytes}

-- An entry expires exactly when its time stamp, bit 63 left out, and the limit that applies lie
-- before now: the SYN timeout, where there is one, for a half-open entry, and the timeout for any
-- other. `raw` is any number of 64 bits.
pub is_expired_iff :
    (now timeout_ns : ℕ) (syn_timeout_ns : Option ℕ) (raw : ℕ)
    → raw < 2 ^ 64
    → (is_expired now timeout_ns syn_timeout_ns raw ≡ true) ↔ (
        ((raw < 2 ^ 63) × (raw + timeout_ns < now))
        ⊎ ((2 ^ 63 ≤ raw) × (raw + get_or syn_timeout_ns timeout_ns < now + 2 ^ 63)))
unfolding is_expired
is_expired_iff now timeout_ns syn_timeout_ns raw h = (λ e. ground arith, λ e. ground arith)

module _ (kernel : KernelMap Bytes ℕ) where
  read-delete :
      (key : Bytes) (dry_run : Bool) (m : ConntrackMap kernel) (j : Bytes)
      → (key == j) ≡ false
      → kernel.read (delete kernel key dry_run m).1.kernel j ≡ kernel.read m.kernel j
  unfolding delete
  read-delete key true m j h = refl
  read-delete key false m j h = elim (Reply-cases (kernel.delete_elem key m.kernel).0) [
    | inl (a, e) ↦ ground (arith, e, h, kernel.delete_done key j m.kernel e)
    | inr (enoent, e) ↦ ground (arith, e, kernel.delete_fails key j m.kernel enoent e)
    | inr (other_errno n, e) ↦
        ground (arith, e, kernel.delete_fails key j m.kernel (other_errno n) e)
  ]

  read-delete_each :
      (flows : List Bytes) (dry_run : Bool) (m : ConntrackMap kernel) (j : Bytes)
      → contains j flows ≡ false
      → kernel.read (delete_each kernel flows dry_run m).1.kernel j ≡ kernel.read m.kernel j
  unfolding delete_each contains
  read-delete_each [] dry_run m j h = refl
  read-delete_each (key ∷ flows) dry_run m j h =
      read-delete_each flows dry_run (delete kernel key dry_run m).1 j (ground arith)
      ∙ read-delete key dry_run m j (ground arith)

  read-stale_keys :
      (expired : ℕ → Bool) (flows : List Bytes) (s : kernel.State) (j : Bytes)
      → kernel.read (stale_keys kernel expired flows s).1 j ≡ kernel.read s j
  unfolding stale_keys
  read-stale_keys expired [] s j = refl
  read-stale_keys expired (key ∷ flows) s j =
      read-stale_keys expired flows (kernel.lookup_elem key s).1 j ∙ kernel.lookup_keeps key j s

  -- a key on the list of stale ones has an entry that has expired
  stale_keys_sound :
      (expired : ℕ → Bool) (flows : List Bytes) (s : kernel.State) (j : Bytes) (raw : ℕ)
      → kernel.read s j ≡ some raw
      → expired raw ≡ false
      → contains j (stale_keys kernel expired flows s).0 ≡ false
  unfolding stale_keys contains
  stale_keys_sound expired [] s j raw found live = refl
  stale_keys_sound expired (key ∷ flows) s j raw found live =
      let s' = (kernel.lookup_elem key s).1 in
      let rest =
        stale_keys_sound expired flows s' j raw (kernel.lookup_keeps key j s ∙ found) live in
      elim (Reply-cases (kernel.lookup_elem key s).0) [
        | inl (old, e) ↦ ground (arith, e, rest, ==_iff key j, kernel.lookup_done key old s e)
        | inr (err, e) ↦ ground (arith, e, rest)
      ]

  -- The garbage collection never evicts a flow that has not expired: whatever commands the kernel
  -- refuses on the way, an entry which the map holds and whose time has not come stays as it is.
  pub gc_expired_keeps :
      (now timeout_ns : ℕ) (syn_timeout_ns : Option ℕ) (m : ConntrackMap kernel) (j : Bytes)
      (raw : ℕ)
      → kernel.read m.kernel j ≡ some raw
      → is_expired now timeout_ns syn_timeout_ns raw ≡ false
      → kernel.read (gc_expired kernel now timeout_ns syn_timeout_ns m).1.kernel j ≡ some raw
  unfolding gc_expired
  gc_expired_keeps now timeout_ns syn_timeout_ns m j raw found live =
      elim (Reply-cases (kernel.walk m.kernel).0) [
        | inl (flows, e) ↦
            rw (e, gc_walked)
              (read-delete_each (stale_keys kernel expired flows s).0 false
                  (record m { kernel = (stale_keys kernel expired flows s).1 }) j
                  (stale_keys_sound expired flows s j raw here live)
                ∙ read-stale_keys expired flows s j
                ∙ here)
        | inr (err, e) ↦ rw (e, gc_walked) here
      ]
    where
      expired : ℕ → Bool
      expired = is_expired now timeout_ns syn_timeout_ns

      s : kernel.State
      s = (kernel.walk m.kernel).1

      here : kernel.read s j ≡ some raw
      here = kernel.walk_keeps j m.kernel ∙ found
