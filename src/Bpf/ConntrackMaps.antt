-- ===== src/Bpf/ConntrackMaps.antt =====
-- `BpfConntrackMaps` of auto_xdp/bpf/maps.py: the IPv4 and the IPv6 table of tracked flows. A key
-- of 12 bytes is IPv4, one of 36 is IPv6, and `_pick_map` raises a ValueError for any other.
use auto_xdp.Bpf.Conntrack
use auto_xdp.Base.{
  Bool, List, Option, bool_key, filter, if◌then◌else◌, length, list_key, nat_key, none, option_key,
  pair_key, some, string_key, union, ℕ, ◌+◌, ◌==◌,
}
use auto_xdp.Bpf.Kernel.{KernelMap, Reply, done, fails}
use auto_xdp.State.{Bytes}

pub data Family : Type 0 where
  v4 v6 : Family

-- `none` is the ValueError
unfoldable pub pick_map : Bytes → Option Family
pick_map key = if length key == 12 then some v4 else if length key == 36 then some v6 else none

module _ (kernel : KernelMap Bytes ℕ) where
  pub record ConntrackMaps : Type 0 where
    pub map4 : Conntrack.ConntrackMap kernel
    pub map6 : Conntrack.ConntrackMap kernel

  unfoldable pub active_flows : ConntrackMaps → List Bytes
  active_flows t = union t.map4.cache t.map6.cache

  unfoldable pub existing_flows : List Bytes → ConntrackMaps → List Bytes × ConntrackMaps
  existing_flows flows t =
      let keys_v4 = filter (λ key. length key == 12) flows in
      let keys_v6 = filter (λ key. length key == 36) flows in
      let (present4, m4) = Conntrack.existing_keys kernel keys_v4 t.map4 in
      let (present6, m6) = Conntrack.existing_keys kernel keys_v6 t.map6 in
      (union present4 present6, record { map4 = m4; map6 = m6 })

  abbrev in_map4 : ConntrackMaps → Bool × Conntrack.ConntrackMap kernel → Bool × ConntrackMaps
  in_map4 t (fine, m) = (fine, record t { map4 = m })

  abbrev in_map6 : ConntrackMaps → Bool × Conntrack.ConntrackMap kernel → Bool × ConntrackMaps
  in_map6 t (fine, m) = (fine, record t { map6 = m })

  unfoldable pub delete_flow : Bytes → Bool → ConntrackMaps → Option (Bool × ConntrackMaps)
  delete_flow key dry_run t = elim (pick_map key) [
    | none ↦ none
    | some v4 ↦ some (in_map4 t (Conntrack.delete kernel key dry_run t.map4))
    | some v6 ↦ some (in_map6 t (Conntrack.delete kernel key dry_run t.map6))
  ]

  unfoldable pub set_flow : ℕ → Bytes → Bool → ConntrackMaps → Option (Bool × ConntrackMaps)
  set_flow now key dry_run t = elim (pick_map key) [
    | none ↦ none
    | some v4 ↦ some (in_map4 t (Conntrack.set kernel now key dry_run t.map4))
    | some v6 ↦ some (in_map6 t (Conntrack.set kernel now key dry_run t.map6))
  ]

  unfoldable pub close_flows : List ℕ → Bool → ConntrackMaps → ℕ × ConntrackMaps
  close_flows ports dry_run t =
      let (deleted4, m4) = Conntrack.delete_dest_ports kernel ports dry_run t.map4 in
      let (deleted6, m6) = Conntrack.delete_dest_ports kernel ports dry_run t.map6 in
      (deleted4 + deleted6, record { map4 = m4; map6 = m6 })

  unfoldable pub collected6 :
      ℕ → ConntrackMaps → Reply ℕ × Conntrack.ConntrackMap kernel → Reply ℕ × ConntrackMaps
  collected6 deleted4 t (done deleted6, m6) = (done (deleted4 + deleted6), record t { map6 = m6 })
  collected6 deleted4 t (fails e, m6) = (fails e, record t { map6 = m6 })

  unfoldable pub collected4 :
      (Conntrack.ConntrackMap kernel → Reply ℕ × Conntrack.ConntrackMap kernel)
      → ConntrackMaps
      → Reply ℕ × Conntrack.ConntrackMap kernel
      → Reply ℕ × ConntrackMaps
  unfolding collected6
  collected4 collect t (done deleted4, m4) =
      collected6 deleted4 (record t { map4 = m4 }) (collect t.map6)
  collected4 collect t (fails e, m4) = (fails e, record t { map4 = m4 })

  -- the number of entries evicted from both, or the error that a walk raised
  unfoldable pub gc_flows : ℕ → ℕ → ℕ → Option ℕ → ConntrackMaps → Reply ℕ × ConntrackMaps
  unfolding collected4
  gc_flows now4 now6 timeout_ns syn_timeout_ns t =
      collected4 (Conntrack.gc_expired kernel now6 timeout_ns syn_timeout_ns) t
        (Conntrack.gc_expired kernel now4 timeout_ns syn_timeout_ns t.map4)
