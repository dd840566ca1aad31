-- ===== src/Bpf/Conntrack.antt =====
-- `BpfConntrackMap` of auto_xdp/bpf/maps.py: the table of tracked flows. A key is the bytes of the
-- two ports and the two addresses; a value is the time of the last packet in nanoseconds, with
-- bit 63 set while the connection is half open.
pub mod Gc
pub mod Ports
use auto_xdp.Base.{
  Bool, List, Option, [], add, bool_key, contains, discard, false, filter, get_or, if◌then◌else◌,
  leb, list_key, ltb, nat_key, option_key, pair_key, string_key, true, ℕ, ◌%◌, ◌*◌, ◌+◌, ◌==◌, ◌^◌,
  ◌∷◌,
}
use auto_xdp.Bpf.Kernel.{Cached, KernelMap, Reply, done, enoent, fails, other_errno}
use auto_xdp.State.{Bytes}

-- `struct.unpack_from("!H", key, 2)[0]`; a key of the kernel has at least four bytes
unfoldable pub dest_port : Bytes → ℕ
dest_port (a ∷ b ∷ high ∷ low ∷ rest) = high * 256 + low
dest_port _ = 0

-- `_CT_SYN_PENDING`
abbrev pub ct_syn_pending : ℕ
ct_syn_pending = 2 ^ 63

-- `bool(raw & _CT_SYN_PENDING)` and `raw & ~_CT_SYN_PENDING` for a number of 64 bits
abbrev pub is_half_open : ℕ → Bool
is_half_open raw = leb ct_syn_pending (raw % 2 ^ 64)

abbrev pub timestamp : ℕ → ℕ
timestamp raw = raw % ct_syn_pending

-- `now - ts > limit`, which is false for a time stamp in the future
unfoldable pub is_expired : ℕ → ℕ → Option ℕ → ℕ → Bool
is_expired now timeout_ns syn_timeout_ns raw =
    let limit = if is_half_open raw then get_or syn_timeout_ns timeout_ns else timeout_ns in
    ltb (timestamp raw + limit) now

reply_expired : (ℕ → Bool) → Reply ℕ → Bool
reply_expired expired (done raw) = expired raw
reply_expired expired (fails e) = false

module _ (kernel : KernelMap Bytes ℕ) where
  abbrev pub ConntrackMap : Type 0
  ConntrackMap = Cached kernel.State (List Bytes)

  delete_reply : Bytes → ConntrackMap → Reply (Unit {0}) × kernel.State → Bool × ConntrackMap
  delete_reply key m (done _, s) = (true, record { kernel = s; cache = discard key m.cache })
  delete_reply key m (fails enoent, s) = (true, record { kernel = s; cache = discard key m.cache })
  delete_reply key m (fails (other_errno n), s) = (false, record m { kernel = s })

  unfoldable pub delete : Bytes → Bool → ConntrackMap → Bool × ConntrackMap
  unfolding delete_reply
  delete key dry_run m =
      if dry_run then (true, m) else delete_reply key m (kernel.delete_elem key m.kernel)

  set_reply : Bytes → ConntrackMap → Reply (Unit {0}) × kernel.State → Bool × ConntrackMap
  set_reply key m (done _, s) = (true, record { kernel = s; cache = add key m.cache })
  set_reply key m (fails e, s) = (false, record m { kernel = s })

  -- `now` is `time.monotonic_ns()`
  unfoldable pub set : ℕ → Bytes → Bool → ConntrackMap → Bool × ConntrackMap
  unfolding set_reply
  set now key dry_run m =
      if dry_run then (true, m) else set_reply key m (kernel.update_elem key now m.kernel)

  existing_key :
      Bytes → List Bytes × ConntrackMap → Reply ℕ × kernel.State → List Bytes × ConntrackMap
  existing_key key (present, m) (done _, s) =
      (add key present, record { kernel = s; cache = add key m.cache })
  existing_key key (present, m) (fails enoent, s) =
      (present, record { kernel = s; cache = discard key m.cache })
  existing_key key (present, m) (fails (other_errno n), s) =
      (if contains key m.cache then add key present else present, record m { kernel = s })

  existing_from : List Bytes → List Bytes × ConntrackMap → List Bytes × ConntrackMap
  existing_from [] acc = acc
  existing_from (key ∷ flows) acc =
      existing_from flows (existing_key key acc (kernel.lookup_elem key acc.1.kernel))

  -- which of the flows the kernel has; a key whose lookup fails counts if the cache has it
  unfoldable pub existing_keys : List Bytes → ConntrackMap → List Bytes × ConntrackMap
  unfolding existing_from existing_key
  existing_keys flows m = existing_from flows ([], m)

  -- the number of deletions that went through
  unfoldable pub delete_each : List Bytes → Bool → ConntrackMap → ℕ × ConntrackMap
  delete_each [] dry_run m = (0, m)
  delete_each (key ∷ flows) dry_run m =
      let (fine, m') = delete key dry_run m in
      let (deleted, m'') = delete_each flows dry_run m' in
      (if fine then deleted + 1 else deleted, m'')

  unfoldable pub delete_dest_ports : List ℕ → Bool → ConntrackMap → ℕ × ConntrackMap
  delete_dest_ports ports dry_run m =
      if ports == []
      then (0, m)
      else delete_each (filter (λ key. contains (dest_port key) ports) m.cache) dry_run m

  -- the flows whose entry was read and has expired; the walk goes on past a failed lookup
  unfoldable pub stale_keys : (ℕ → Bool) → List Bytes → kernel.State → List Bytes × kernel.State
  unfolding reply_expired
  stale_keys expired [] s = ([], s)
  stale_keys expired (key ∷ flows) s =
      let (reply, s') = kernel.lookup_elem key s in
      let (rest, s'') = stale_keys expired flows s' in
      (if reply_expired expired reply then key ∷ rest else rest, s'')

  gc_walked : (ℕ → Bool) → ConntrackMap → Reply (List Bytes) × kernel.State → Reply ℕ × ConntrackMap
  gc_walked expired m (fails e, s) = (fails e, record m { kernel = s })
  gc_walked expired m (done flows, s) =
      let (stale, s') = stale_keys expired flows s in
      let (deleted, m') = delete_each stale false (record m { kernel = s' }) in (done deleted, m')

  -- the number of entries evicted, or the error that the walk over the map raised
  unfoldable pub gc_expired : ℕ → ℕ → Option ℕ → ConntrackMap → Reply ℕ × ConntrackMap
  unfolding gc_walked
  gc_expired now timeout_ns syn_timeout_ns m =
      gc_walked (is_expired now timeout_ns syn_timeout_ns) m (kernel.walk m.kernel)
