-- ===== src/Bpf/Readback/Scan.antt =====
-- What `_read_kernel` of BpfArrayMap in auto_xdp/bpf/maps.py collects from slots and from a scan.
use auto_xdp.Base.{
  ==_iff, Bool-cases, List, Option, [], ap, arith, bool_key, contains, contains-add, false, inl,
  inr, leb, list_key, nat_key, none, not, option_key, pair_key, refl, some, string_key, suc, true,
  zero, ℕ, ◌&&◌, ◌+◌, ◌==◌, ◌||◌, ◌∙◌, ◌∷◌, ◌≡◌, ◌⊎◌,
}
use auto_xdp.Bpf.ArrayMap.{is_on}
use auto_xdp.Bpf.Kernel.{Errno, KernelMap, Reply, Reply-cases, done, enoent, fails}
use auto_xdp.Bpf.Readback.{ports_on, scan, scanned}

-- the copied ports are those of a slot that is on
pub ports_on_sound :
    (p : ℕ) (slots : List (ℕ × ℕ))
    → contains p (ports_on slots) ≡ true
    → (v : ℕ) × (contains (p, v) slots ≡ true) × ((v == 0) ≡ false)
unfolding ports_on contains
ports_on_sound p [] h = absurd (cc)
ports_on_sound p ((port, val) ∷ slots) h = elim (Bool-cases (port == p && not (val == 0))) [
  | inl here ↦ (val, ground (arith, here, h), ground (arith, here))
  | inr away ↦
      deeper
        (ports_on_sound p slots (ground (arith, away, h, contains-add p port (ports_on slots))))
]
  where
    deeper :
        (v : ℕ) × (contains (p, v) slots ≡ true) × ((v == 0) ≡ false)
        → (v : ℕ) × (contains (p, v) ((port, val) ∷ slots) ≡ true) × ((v == 0) ≡ false)
    deeper (v, c, on) = (v, ground (arith, c), on)

pub ports_on_complete :
    (p v : ℕ) (slots : List (ℕ × ℕ))
    → contains (p, v) slots ≡ true
    → (v == 0) ≡ false
    → contains p (ports_on slots) ≡ true
unfolding ports_on contains
ports_on_complete p v [] h on = absurd (cc)
ports_on_complete p v ((port, val) ∷ slots) h on = ground (
  arith,
  h,
  on,
  ==_iff port p,
  ==_iff val v,
  contains-add p port (ports_on slots),
  ports_on_complete p v slots,
)

contains-scanned :
    (p port : ℕ) (reply : Reply ℕ) (o : Option ℕ) (rest : List ℕ)
    → (reply ≡ fails enoent) × (o ≡ none) ⊎ ((v : ℕ) × (reply ≡ done v) × (o ≡ some v))
    → contains p (scanned port reply rest) ≡ (port == p && is_on o || contains p rest)
unfolding scanned
contains-scanned p port reply o rest (inl (e, gone)) = rw (e, gone) (ground arith)
contains-scanned p port reply o rest (inr (v, e, there)) =
    rw (e, there) (ground (arith, contains-add p port rest))

module _ (kernel : KernelMap ℕ ℕ) where
  pub scan_keeps :
      (port n p : ℕ) (s : kernel.State) → kernel.read (scan kernel port n s).1 p ≡ kernel.read s p
  unfolding scan
  scan_keeps port zero p s = refl
  scan_keeps port (suc n) p s =
      scan_keeps (port + 1) n p (kernel.lookup_elem port s).1 ∙ kernel.lookup_keeps port p s

  -- a scan without another error finds the ports of its range that are on
  pub contains-scan :
      (lookup_ok : (i : ℕ) (e : Errno) (s : kernel.State)
        → (kernel.lookup_elem i s).0 ≡ fails e
        → e ≡ enoent)
      → (port n p : ℕ) (s : kernel.State)
      → contains p (scan kernel port n s).0
        ≡ (leb port p && not (leb (port + n) p) && is_on (kernel.read s p))
  unfolding scan scanned contains
  contains-scan lookup_ok port zero p s = ground arith
  contains-scan lookup_ok port (suc n) p s =
      contains-scanned p port (kernel.lookup_elem port s).0 (kernel.read s port)
        (scan kernel (port + 1) n (kernel.lookup_elem port s).1).0 slot
      ∙ range_step
          (contains-scan lookup_ok (port + 1) n p (kernel.lookup_elem port s).1
            ∙ ap (λ o. leb (port + 1) p && not (leb (port + 1 + n) p) && is_on o)
                (kernel.lookup_keeps port p s))
          (Bool-cases (port == p))
    where
      slot :
          ((kernel.lookup_elem port s).0 ≡ fails enoent) × (kernel.read s port ≡ none)
          ⊎ ((v : ℕ) × ((kernel.lookup_elem port s).0 ≡ done v) × (kernel.read s port ≡ some v))
      slot = elim (Reply-cases (kernel.lookup_elem port s).0) [
        | inl (v, e) ↦ inr (v, e, kernel.lookup_done port v s e)
        | inr (err, e) ↦
            let missing = e ∙ ap fails (lookup_ok port err s e) in
            inl (missing, kernel.lookup_enoent port s missing)
      ]

      range_step :
          (contains p (scan kernel (port + 1) n (kernel.lookup_elem port s).1).0
            ≡ (leb (port + 1) p && not (leb (port + 1 + n) p) && is_on (kernel.read s p)))
          → ((port == p) ≡ true) ⊎ ((port == p) ≡ false)
          → (port == p && is_on (kernel.read s port)
              || contains p (scan kernel (port + 1) n (kernel.lookup_elem port s).1).0)
            ≡ (leb port p && not (leb (port + suc n) p) && is_on (kernel.read s p))
      range_step later (inl same) =
          let slot_of = ap (λ q. is_on (kernel.read s q)) ((==_iff port p).0 same) in
          ground (arith, same, slot_of, later)
      range_step later (inr away) = ground (arith, away, later)
