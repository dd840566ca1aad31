-- ===== src/Bpf/Readback.antt =====
-- Reading a port whitelist back from the kernel: `BpfArrayMap._read_kernel` of auto_xdp/bpf/maps.py
-- and `CacheVerifyMixin.verify` on it. BPF_MAP_LOOKUP_BATCH is a parameter: it returns the slots
-- that it has copied and its reply, where ENOENT says that the end of the map was reached.
pub mod Scan
pub mod Repair
use auto_xdp.Base.{
  List, [], add, bool_key, contains, difference, if◌then◌else◌, leb, length, list_key, nat_key,
  none, option_key, pair_key, set_eq, some, string_key, suc, true, zero, ℕ, ◌+◌, ◌==◌, ◌∷◌, ◌≡◌,
  ◌⊎◌,
}
use auto_xdp.Bpf.ArrayMap.{ArrayMap}
use auto_xdp.Bpf.Kernel.{KernelMap, Reply, done, enoent, fails, other_errno}

pub record BatchReader (kernel : KernelMap ℕ ℕ) : Type 0 where
  -- the buffers have room for `max_entries` slots
  pub max_entries : ℕ
  pub lookup_batch : kernel.State → (Reply (Unit {0}) × List (ℕ × ℕ)) × kernel.State
  pub batch_keeps : (p : ℕ) (s : kernel.State) → kernel.read (lookup_batch s).1 p ≡ kernel.read s p
  pub batch_copies :
      (p v : ℕ) (s : kernel.State)
      → ((lookup_batch s).0.0 ≡ done tt) ⊎ ((lookup_batch s).0.0 ≡ fails enoent)
      → contains (p, v) (lookup_batch s).0.1 ≡ (kernel.read s p == some v)
  -- an array map has no slot past its end
  pub read_end : (p : ℕ) (s : kernel.State) → leb max_entries p ≡ true → kernel.read s p ≡ none

-- the ports of the copied slots that are on
unfoldable pub ports_on : List (ℕ × ℕ) → List ℕ
ports_on [] = []
ports_on ((port, val) ∷ slots) =
    let rest = ports_on slots in if val == 0 then rest else add port rest

-- `try: if self._lookup(port): result.add(port)`, `except OSError: continue`
unfoldable pub scanned : ℕ → Reply ℕ → List ℕ → List ℕ
scanned port (done val) rest = if val == 0 then rest else add port rest
scanned port (fails e) rest = rest

module _ (kernel : KernelMap ℕ ℕ) where
  -- the sequential scan of `n` ports
  unfoldable pub scan : ℕ → ℕ → kernel.State → List ℕ × kernel.State
  scan port zero s = ([], s)
  scan port (suc n) s =
      let (reply, s') = kernel.lookup_elem port s in
      let (rest, s'') = scan (port + 1) n s' in (scanned port reply rest, s'')

  module _ (batch : BatchReader kernel) where
    unfoldable pub copied : Reply (Unit {0}) → List (ℕ × ℕ) → kernel.State → List ℕ × kernel.State
    copied (done _) slots s = (ports_on slots, s)
    copied (fails enoent) slots s = (ports_on slots, s)
    copied (fails (other_errno e)) slots s = scan 0 batch.max_entries s

    unfoldable pub read_kernel : kernel.State → List ℕ × kernel.State
    read_kernel s = let ((reply, slots), s') = batch.lookup_batch s in copied reply slots s'

    -- `len(set(kernel) ^ set(self._cache))`, and 0 where they are equal
    unfoldable pub verify : ArrayMap kernel → ℕ × ArrayMap kernel
    verify m =
        let (ports, s) = read_kernel m.kernel in
        if set_eq ports m.cache then (0, record m { kernel = s }) else (
          length (difference ports m.cache) + length (difference m.cache ports),
          record { kernel = s; cache = ports },
        )
