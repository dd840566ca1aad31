-- ===== src/Backend/Collection.antt =====
-- `XdpBackend.run_ct_gc` of auto_xdp/backends/xdp.py: what the garbage collection never evicts.
use auto_xdp.Bpf.Conntrack
use auto_xdp.Bpf.ConntrackMaps
use auto_xdp.Base.{
  Option, bool_key, false, list_key, nat_key, none, option_key, pair_key, refl, some, string_key, ℕ,
  ◌≡◌,
}
use auto_xdp.Backend.{Backend, Kernels}
use auto_xdp.Backend.Apply.{run_ct_gc, tcp_collected, udp_collected}
use auto_xdp.Bpf.Conntrack.Gc.{gc_expired_keeps}
use auto_xdp.Bpf.ConntrackMaps.{ConntrackMaps, Family, v4, v6}
use auto_xdp.Bpf.Kernel.{Reply, done, fails}
use auto_xdp.Config.{Config, Float}
use auto_xdp.State.{Bytes}

module _ (k : Kernels) {F : Float} (cfg : Config F) where
  -- what one of the two tables holds for a flow
  abbrev pub held : Family → ConntrackMaps.ConntrackMaps k.flows → Bytes → Option ℕ
  held v4 t j = k.flows.read t.map4.kernel j
  held v6 t j = k.flows.read t.map6.kernel j

  abbrev pub of_family : Family → ℕ → ℕ → ℕ
  of_family v4 a b = a
  of_family v6 a b = b

  collected6_keeps :
      (fam : Family) (deleted4 : ℕ) (t : ConntrackMaps.ConntrackMaps k.flows) (j : Bytes) (raw : ℕ)
      (r : Reply ℕ × Conntrack.ConntrackMap k.flows)
      → held fam t j ≡ some raw
      → (fam ≡ v6 → k.flows.read r.1.kernel j ≡ some raw)
      → held fam (ConntrackMaps.collected6 k.flows deleted4 t r).1 j ≡ some raw
  unfolding ConntrackMaps.collected6
  collected6_keeps v4 deleted4 t j raw (done n, m) h g = h
  collected6_keeps v4 deleted4 t j raw (fails e, m) h g = h
  collected6_keeps v6 deleted4 t j raw (done n, m) h g = g refl
  collected6_keeps v6 deleted4 t j raw (fails e, m) h g = g refl

  collected4_keeps :
      (fam : Family)
      (collect : Conntrack.ConntrackMap k.flows → Reply ℕ × Conntrack.ConntrackMap k.flows)
      (t : ConntrackMaps.ConntrackMaps k.flows) (j : Bytes) (raw : ℕ)
      (r : Reply ℕ × Conntrack.ConntrackMap k.flows)
      → held fam t j ≡ some raw
      → (fam ≡ v4 → k.flows.read r.1.kernel j ≡ some raw)
      → (fam ≡ v6 → k.flows.read (collect t.map6).1.kernel j ≡ some raw)
      → held fam (ConntrackMaps.collected4 k.flows collect t r).1 j ≡ some raw
  unfolding ConntrackMaps.collected4
  collected4_keeps v4 collect t j raw (fails e, m) h g4 g6 = g4 refl
  collected4_keeps v6 collect t j raw (fails e, m) h g4 g6 = h
  collected4_keeps v4 collect t j raw (done n, m) h g4 g6 =
      collected6_keeps v4 n (record t { map4 = m }) j raw (collect t.map6) (g4 refl) g6
  collected4_keeps v6 collect t j raw (done n, m) h g4 g6 =
      collected6_keeps v6 n (record t { map4 = m }) j raw (collect t.map6) h g6

  gc_flows_keeps :
      (fam : Family) (now4 now6 timeout_ns : ℕ) (syn : Option ℕ)
      (t : ConntrackMaps.ConntrackMaps k.flows) (j : Bytes) (raw : ℕ)
      → held fam t j ≡ some raw
      → Conntrack.is_expired (of_family fam now4 now6) timeout_ns syn raw ≡ false
      → held fam (ConntrackMaps.gc_flows k.flows now4 now6 timeout_ns syn t).1 j ≡ some raw
  unfolding ConntrackMaps.gc_flows
  gc_flows_keeps v4 now4 now6 timeout_ns syn t j raw h live =
      collected4_keeps v4 (Conntrack.gc_expired k.flows now6 timeout_ns syn) t j raw
        (Conntrack.gc_expired k.flows now4 timeout_ns syn t.map4) h
        (λ e. gc_expired_keeps k.flows now4 timeout_ns syn t.map4 j raw h live) (λ e. absurd (cc))
  gc_flows_keeps v6 now4 now6 timeout_ns syn t j raw h live =
      collected4_keeps v6 (Conntrack.gc_expired k.flows now6 timeout_ns syn) t j raw
        (Conntrack.gc_expired k.flows now4 timeout_ns syn t.map4) h (λ e. absurd (cc))
        (λ e. gc_expired_keeps k.flows now6 timeout_ns syn t.map6 j raw h live)

  tcp_collected_keeps :
      (fam : Family) (udp4 udp6 : ℕ) (b : Backend k) (j : Bytes) (raw : ℕ)
      (r : Reply ℕ × ConntrackMaps.ConntrackMaps k.flows)
      → held fam r.1 j ≡ some raw
      → held fam (tcp_collected k cfg udp4 udp6 b r).1.conntrack_map j ≡ some raw
  unfolding tcp_collected udp_collected
  tcp_collected_keeps fam udp4 udp6 b j raw (fails e, t) h = h
  tcp_collected_keeps fam udp4 udp6 b j raw (done n, t) h = kept (
      ConntrackMaps.gc_flows k.flows udp4 udp6 (F.to_ns cfg.xdp_udp_timeout_seconds) none
        b.udp_conntrack_map)
    where
      kept :
          (q : Reply ℕ × ConntrackMaps.ConntrackMaps k.flows)
          → held fam (udp_collected k cfg (record b { conntrack_map = t }) q).1.conntrack_map j
            ≡ some raw
      kept (done n', u) = h
      kept (fails e, u) = h

  -- A garbage collection of the backend keeps every tracked TCP flow whose time has not come, in
  -- either table, under the configured timeouts; an error in one table does not change that.
  pub run_ct_gc_keeps :
      (fam : Family) (tcp4 tcp6 udp4 udp6 : ℕ) (b : Backend k) (j : Bytes) (raw : ℕ)
      → held fam b.conntrack_map j ≡ some raw
      → Conntrack.is_expired
          (of_family fam tcp4 tcp6)
          (F.to_ns cfg.xdp_tcp_timeout_seconds)
          (some (F.to_ns cfg.xdp_syn_timeout_seconds))
          raw
        ≡ false
      → held fam (run_ct_gc k cfg tcp4 tcp6 udp4 udp6 b).1.conntrack_map j ≡ some raw
  unfolding run_ct_gc
  run_ct_gc_keeps fam tcp4 tcp6 udp4 udp6 b j raw h live =
      tcp_collected_keeps fam udp4 udp6 b j raw
        (ConntrackMaps.gc_flows k.flows tcp4 tcp6 (F.to_ns cfg.xdp_tcp_timeout_seconds)
          (some (F.to_ns cfg.xdp_syn_timeout_seconds)) b.conntrack_map)
        (gc_flows_keeps fam tcp4 tcp6 (F.to_ns cfg.xdp_tcp_timeout_seconds)
          (some (F.to_ns cfg.xdp_syn_timeout_seconds)) b.conntrack_map j raw h live)
