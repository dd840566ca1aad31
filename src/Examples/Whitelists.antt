-- ===== src/Examples/Whitelists.antt =====
-- A whitelist of two ports, with and without the batch command, read back after its cache has
-- drifted from it.
use auto_xdp.Base.{
  Bool, List, Option, [], add, ap, arith, bool_key, contains, difference, false, filter,
  if◌then◌else◌, inl, inr, is_some, leb, list_key, nat_key, none, option_key, pair_key, refl,
  set_eq, some, string_key, subset, true, ℕ, ◌+◌, ◌==◌, ◌↔◌, ◌∷◌, ◌≡◌, ◌⊎◌,
}
use auto_xdp.Bpf.ArrayMap.{ArrayMap, IsCoherent}
use auto_xdp.Bpf.Kernel.{Errno, KernelMap, Reply, done, enoent, fails, other_errno}
use auto_xdp.Bpf.Readback.{BatchReader, copied, ports_on, read_kernel, scan, scanned, verify}
use auto_xdp.Bpf.Readback.Repair.{verify_repairs}
use auto_xdp.Bpf.Samples.{reply_of, reply_of_done, reply_of_enoent}

-- the two slots, and whether the kernel knows the batch command
abbrev Slots : Type 0
Slots = ℕ × (ℕ × Bool)

abbrev read_port_slot : Slots → ℕ → Option ℕ
read_port_slot (a, (b, f)) p = if p == 0 then some a else if p == 1 then some b else none

abbrev update_port_slot : ℕ → ℕ → Slots → Reply (Unit {0}) × Slots
update_port_slot p v (a, (b, f)) =
    if p == 0
    then (done tt, (v, (b, f)))
    else if p == 1
    then (done tt, (a, (v, f)))
    else (fails (other_errno 7), (a, (b, f)))

abbrev reply_number : Reply (Unit {0}) → ℕ
reply_number (done _) = 0
reply_number (fails enoent) = 1
reply_number (fails (other_errno n)) = n + 2

update_port_slot_done :
    (i j v : ℕ) (s : Slots)
    → (update_port_slot i v s).0 ≡ done tt
    → read_port_slot (update_port_slot i v s).1 j ≡ (if i == j then some v else read_port_slot s j)
update_port_slot_done i j v (a, (b, f)) h =
    let number = ap reply_number h in ground (arith, h, number, nat_key.eqb_iff i j)

update_port_slot_fails :
    (i j v : ℕ) (s : Slots) (e : Errno)
    → (update_port_slot i v s).0 ≡ fails e
    → read_port_slot (update_port_slot i v s).1 j ≡ read_port_slot s j
update_port_slot_fails i j v (a, (b, f)) e h =
    let number = ap reply_number h in ground (arith, h, number)

-- an array map has no deletion
abbrev delete_port_slot : ℕ → Slots → Reply (Unit {0}) × Slots
delete_port_slot p s = (fails (other_errno 22), s)

abbrev walk_slots : Slots → Reply (List ℕ) × Slots
walk_slots s = (fails (other_errno 22), s)

delete_port_slot_done :
    (i j : ℕ) (s : Slots)
    → (delete_port_slot i s).0 ≡ done tt
    → read_port_slot s j ≡ (if i == j then none else read_port_slot s j)
delete_port_slot_done i j s h = absurd (cc)

delete_port_slot_enoent :
    (i : ℕ) (s : Slots) → (delete_port_slot i s).0 ≡ fails enoent → read_port_slot s i ≡ none
delete_port_slot_enoent i s h = let number = ap reply_number h in absurd (omega (arith, number))

walk_slots_done :
    (ks : List ℕ) (j : ℕ) (s : Slots)
    → (walk_slots s).0 ≡ done ks
    → contains j ks ≡ is_some (read_port_slot s j)
walk_slots_done ks j s h = absurd (cc)

abbrev slot_kernel : KernelMap ℕ ℕ
slot_kernel = record {
  State = Slots;
  read = read_port_slot;
  update_elem = update_port_slot;
  delete_elem = delete_port_slot;
  lookup_elem = λ i s. (reply_of (read_port_slot s i), s);
  walk = walk_slots;
  update_done = λ i j v s h. update_port_slot_done i j v s h;
  update_fails = λ i j v s e h. update_port_slot_fails i j v s e h;
  delete_done = λ i j s h. delete_port_slot_done i j s h;
  delete_fails = λ i j s e h. refl;
  delete_enoent = λ i s h. delete_port_slot_enoent i s h;
  lookup_keeps = λ i j s. refl;
  lookup_done = λ i v s h. reply_of_done (read_port_slot s i) v h;
  lookup_enoent = λ i s h. reply_of_enoent (read_port_slot s i) h;
  walk_keeps = λ j s. refl;
  walk_done = λ ks j s h. walk_slots_done ks j s h;
}

abbrev copy_slots : Slots → Reply (Unit {0}) × List (ℕ × ℕ)
copy_slots (a, (b, true)) = (fails enoent, (0, a) ∷ (1, b) ∷ [])
copy_slots (a, (b, false)) = (fails (other_errno 22), [])

copy_slots_whole :
    (p v : ℕ) (s : Slots)
    → ((copy_slots s).0 ≡ done tt) ⊎ ((copy_slots s).0 ≡ fails enoent)
    → contains (p, v) (copy_slots s).1 ≡ (read_port_slot s p == some v)
unfolding contains
copy_slots_whole p v (a, (b, true)) r = ground arith
copy_slots_whole p v (a, (b, false)) (inl h) = absurd (cc)
copy_slots_whole p v (a, (b, false)) (inr h) =
    let number = ap reply_number h in absurd (omega (arith, number))

read_port_slot_end : (p : ℕ) (s : Slots) → leb 2 p ≡ true → read_port_slot s p ≡ none
read_port_slot_end p s h = ground (arith, h)

abbrev slot_batch : BatchReader slot_kernel
slot_batch = record {
  max_entries = 2;
  lookup_batch = λ s. (copy_slots s, s);
  batch_keeps = λ p s. refl;
  batch_copies = λ p v s r. copy_slots_whole p v s r;
  read_end = λ p s h. read_port_slot_end p s h;
}

reply_of_fails : (o : Option ℕ) (e : Errno) → reply_of o ≡ fails e → e ≡ enoent
reply_of_fails none e h = cc
reply_of_fails (some v) e h = absurd (cc)

slot_lookup_ok :
    (i : ℕ) (e : Errno) (s : Slots) → (slot_kernel.lookup_elem i s).0 ≡ fails e → e ≡ enoent
slot_lookup_ok i e s h = reply_of_fails (read_port_slot s i) e h

-- the kernel has lost port 0 and has gained port 1
abbrev drifted : Bool → ArrayMap slot_kernel
drifted has_batch = record { kernel = (0, (1, has_batch)); cache = 0 ∷ [] }

drift_counted_by_batch : (verify slot_kernel slot_batch (drifted true)).0 ≡ 2
unfolding verify read_kernel copied ports_on contains difference filter set_eq subset add
drift_counted_by_batch = refl

drift_counted_by_scan : (verify slot_kernel slot_batch (drifted false)).0 ≡ 2
unfolding verify read_kernel copied scan scanned contains difference filter set_eq subset add
drift_counted_by_scan = refl

verify_repairs_example :
    ((p : ℕ)
      → slot_kernel.read (verify slot_kernel slot_batch (drifted false)).1.kernel p
        ≡ slot_kernel.read (drifted false).kernel p)
    × IsCoherent slot_kernel (verify slot_kernel slot_batch (drifted false)).1
    × (((verify slot_kernel slot_batch (drifted false)).0 ≡ 0)
        ↔ IsCoherent slot_kernel (drifted false))
verify_repairs_example = verify_repairs slot_kernel slot_batch slot_lookup_ok (drifted false)
