-- ===== src/Backend/Reads.antt =====
-- `XdpBackend.get_applied_state` and `build_reconcile_plan` of auto_xdp/backends/xdp.py: what they
-- leave of the backend.
use auto_xdp.Bpf.AclMap
use auto_xdp.Bpf.ArrayMap
use auto_xdp.Bpf.LpmMap
use auto_xdp.Bpf.RateOuter
use auto_xdp.Base.{
  Option, Option-cases, bool_key, inl, inr, list_key, nat_key, option_key, pair_key, refl,
  string_key, ◌∙◌, ◌≡◌,
}
use auto_xdp.Backend.{Backend, Kernels, cfg_flag, get_applied_state, global_read, runtime_read}
use auto_xdp.Bpf.AclMap.{AclMap}
use auto_xdp.Bpf.ArrayMap.{ArrayMap}
use auto_xdp.Bpf.ConntrackMaps.{ConntrackMaps}
use auto_xdp.Bpf.LpmMap.{LpmMap}
use auto_xdp.Bpf.PortPolicy.{PortPolicyMap}
use auto_xdp.Bpf.Runtime.{
  cfg_flag_bogon_disabled, cfg_flag_drop_events_disabled, get_cfg_flags, get_config,
}

-- The maps that a round writes to, but for the tracked TCP flows and the two one-slot maps: those
-- are written to by reading.
pub record Written (k : Kernels) : Type 0 where
  pub tcp_map : ArrayMap.ArrayMap k.ports
  pub udp_map : ArrayMap.ArrayMap k.ports
  pub trusted_map : LpmMap.TrustedMaps k.networks k.normalize
  pub udp_conntrack_map : ConntrackMaps k.flows
  pub tcp_policy_map : Option (PortPolicyMap k.policies)
  pub udp_policy_map : Option (PortPolicyMap k.policies)
  pub acl_maps : Option (AclMap.AclMaps k.rules)
  pub sctp_map : Option (ArrayMap.ArrayMap k.ports)
  pub sit4_map : Option (LpmMap.LpmMap k.networks)
  pub syn4_outer : Option (RateOuter.RateOuterMap k.rate_slots k.map_create)
  pub syn6_outer : Option (RateOuter.RateOuterMap k.rate_slots k.map_create)
  pub udprt4_outer : Option (RateOuter.RateOuterMap k.rate_slots k.map_create)
  pub udprt6_outer : Option (RateOuter.RateOuterMap k.rate_slots k.map_create)

abbrev pub written_maps : {k : Kernels} → Backend k → Written k
written_maps b = record {
  tcp_map = b.tcp_map;
  udp_map = b.udp_map;
  trusted_map = b.trusted_map;
  udp_conntrack_map = b.udp_conntrack_map;
  tcp_policy_map = b.tcp_policy_map;
  udp_policy_map = b.udp_policy_map;
  acl_maps = b.acl_maps;
  sctp_map = b.sctp_map;
  sit4_map = b.sit4_map;
  syn4_outer = b.syn4_outer;
  syn6_outer = b.syn6_outer;
  udprt4_outer = b.udprt4_outer;
  udprt6_outer = b.udprt6_outer;
}

module _ (k : Kernels) where
  -- the same maps, tracked flows and rounds
  abbrev pub IsRead : Backend k → Backend k → Type 0
  IsRead b c =
      (written_maps c ≡ written_maps b)
      × (c.conntrack_map ≡ b.conntrack_map)
      × (c.conntrack_stale_rounds ≡ b.conntrack_stale_rounds)

  IsRead-trans : (a b c : Backend k) → IsRead a b → IsRead b c → IsRead a c
  IsRead-trans a b c g h = (h.0 ∙ g.0, h.1 ∙ g.1, h.2 ∙ g.2)

  runtime_read-IsRead :
      {A : Type 0} (read : k.runtime.State → Option A × k.runtime.State) (b : Backend k)
      → IsRead b (runtime_read k read b).1
  unfolding runtime_read
  runtime_read-IsRead read b = elim (Option-cases b.runtime_config_map) [
    | inl closed ↦ rw (runtime_read, closed) (refl, refl, refl)
    | inr (s, open_map) ↦ rw (runtime_read, open_map) (refl, refl, refl)
  ]

  global_read-IsRead : (b : Backend k) → IsRead b (global_read k b).1
  unfolding global_read
  global_read-IsRead b = elim (Option-cases b.global_rl_map) [
    | inl closed ↦ rw (global_read, closed) (refl, refl, refl)
    | inr (s, open_map) ↦ rw (global_read, open_map) (refl, refl, refl)
  ]

  pub get_applied_state-IsRead : (b : Backend k) → IsRead b (get_applied_state k b).1
  unfolding get_applied_state cfg_flag
  get_applied_state-IsRead b =
      let b1 = (cfg_flag k cfg_flag_bogon_disabled b).1 in
      let b2 = (cfg_flag k cfg_flag_drop_events_disabled b1).1 in
      let b3 = (global_read k b2).1 in
      let b4 = (runtime_read k (get_config k.runtime) b3).1 in
      IsRead-trans b b1 b4 (runtime_read-IsRead (get_cfg_flags k.runtime) b) (
        IsRead-trans b1 b2 b4 (runtime_read-IsRead (get_cfg_flags k.runtime) b1) (
          IsRead-trans b2 b3 b4 (global_read-IsRead b2)
            (runtime_read-IsRead (get_config k.runtime) b3)))
