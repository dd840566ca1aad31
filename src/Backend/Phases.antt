-- ===== src/Backend/Phases.antt =====
-- The loops of `XdpBackend.apply_reconcile_plan` of auto_xdp/backends/xdp.py, one function to each
-- in its order. A loop counts the operations that returned False, as `_ok` does.
use auto_xdp.Bpf.AclMap
use auto_xdp.Bpf.ArrayMap
use auto_xdp.Bpf.LpmMap
use auto_xdp.Bpf.PortPolicy
use auto_xdp.Bpf.RateOuter
use auto_xdp.Base.{
  Bool, Dict, List, Option, String, [], bool_key, difference, false, filter_items, get_or,
  if◌then◌else◌, keys, leb, list_key, lookup, nat_key, none, not, option_key, pair_key, some, sort,
  string_key, text_leb, ℕ, ◌&&◌, ◌+◌, ◌==◌, ◌>>=◌, ◌∷◌,
}
use auto_xdp.Backend.{Kernels, compute_cfg_flags}
use auto_xdp.Bpf.AclMap.{AclMap}
use auto_xdp.Bpf.AclMaps.{delete_rule, set_rule}
use auto_xdp.Bpf.ArrayMap.{ArrayMap}
use auto_xdp.Bpf.Kernel.{sweep}
use auto_xdp.Bpf.LpmMap.{LpmMap}
use auto_xdp.Bpf.PortPolicy.{Field}
use auto_xdp.Bpf.Runtime.{get_cfg_flags, get_config, set_config, set_rate}
use auto_xdp.Config.{Config, Float}
use auto_xdp.State.{Bytes, DesiredState, ReconcilePlan, RuntimeConfig}

-- a loop over a map that may not be open
abbrev pub over : {M : Type 0} → (M → ℕ × M) → Option M → ℕ × Option M
over loop none = (0, none)
over loop (some m) = let (failures, m') = loop m in (failures, some m')

-- one loop after another over the same map
abbrev pub both : {M : Type 0} → (M → ℕ × M) → (M → ℕ × M) → M → ℕ × M
both first second m =
    let (failures, m') = first m in let (more, m'') = second m' in (failures + more, m'')

abbrev pub sorted_ports : List ℕ → List ℕ
sorted_ports = sort leb

abbrev pub sorted_texts : List String → List String
sorted_texts = sort text_leb

-- A loop over tracked flows; `none` is the ValueError of `_pick_map`, which ends the call.
unfoldable pub flow_loop :
    {M : Type 0}
    → (Bytes → M → Option (Bool × M))
    → (Bytes → Dict Bytes ℕ → Dict Bytes ℕ)
    → List Bytes
    → M × Dict Bytes ℕ
    → Option (ℕ × M × Dict Bytes ℕ)
flow_loop op forget [] (m, counts) = some (0, m, counts)
flow_loop op forget (key ∷ flows) (m, counts) = do
  (fine, m') ← op key m
  (failures, m'', counts'') ←
      flow_loop op forget flows (m', if fine then forget key counts else counts)
  some (if fine then failures else failures + 1, m'', counts'')

-- `a != b` between the tuples of the runtime configuration
abbrev pub runtime_eq : RuntimeConfig → RuntimeConfig → Bool
runtime_eq a b =
    a.tcp_timeout_ns == b.tcp_timeout_ns
    && a.udp_timeout_ns == b.udp_timeout_ns
    && a.conntrack_refresh_ns == b.conntrack_refresh_ns
    && a.icmp_burst_packets == b.icmp_burst_packets
    && a.icmp_ns_per_token == b.icmp_ns_per_token
    && a.udp_global_window_ns == b.udp_global_window_ns
    && a.rate_window_ns == b.rate_window_ns
    && a.syn_timeout_ns == b.syn_timeout_ns

abbrev pub is_current : RuntimeConfig → ℕ → Option RuntimeConfig → Option ℕ → Bool
is_current wanted flags none current_flags = false
is_current wanted flags (some current) current_flags =
    runtime_eq wanted current && flags == get_or current_flags 0

module _ (k : Kernels) {F : Float} (cfg : Config F) where
  -- `_apply_rate_map_delta` on a view
  unfoldable pub rate_map_delta :
      Field
      → Dict ℕ ℕ
      → List ℕ
      → Bool
      → PortPolicy.PortPolicyMap k.policies
      → ℕ × PortPolicy.PortPolicyMap k.policies
  rate_map_delta f upserts removals dry_run =
      both
        (sweep
          (λ e.
            PortPolicy.view_set k.policies cfg.rate_limit_source_prefix_v4
              cfg.rate_limit_source_prefix_v6 f e.0 e.1 dry_run)
          upserts)
        (sweep (λ port. PortPolicy.view_delete k.policies f port dry_run) removals)

  -- `_apply_rate_outer_delta`; both loops go by the slots at the start
  unfoldable pub rate_outer_delta :
      Dict ℕ ℕ
      → Bool
      → RateOuter.RateOuterMap k.rate_slots k.map_create
      → ℕ × RateOuter.RateOuterMap k.rate_slots k.map_create
  rate_outer_delta desired dry_run m =
      both
        (sweep (λ e. RateOuter.set k.rate_slots k.map_create e.0 e.1 dry_run)
          (filter_items (λ port capacity. not (lookup port m.cache == some capacity)) desired))
        (sweep (λ port. RateOuter.delete k.rate_slots k.map_create port dry_run)
          (difference (keys m.cache) (keys desired)))
        m

  -- `_apply_acl_delta`
  unfoldable pub acl_delta :
      ReconcilePlan → Bool → AclMap.AclMaps k.rules → ℕ × AclMap.AclMaps k.rules
  acl_delta plan dry_run =
      both
        (sweep (λ e. set_rule k.rules k.normalize e.0.0 e.0.1 (sorted_ports e.1) dry_run)
          plan.acl_rules_to_upsert)
        (sweep (λ rule. delete_rule k.rules k.normalize rule.0 rule.1 dry_run)
          plan.acl_rules_to_remove)

  -- the trusted networks; those of the configuration are never removed
  unfoldable pub trusted_delta :
      ReconcilePlan
      → Bool
      → LpmMap.TrustedMaps k.networks k.normalize
      → ℕ × LpmMap.TrustedMaps k.networks k.normalize
  trusted_delta plan dry_run =
      both
        (sweep (λ cidr. LpmMap.trusted_set k.networks k.normalize cidr 1 dry_run)
          (sorted_texts plan.trusted_cidrs_to_add))
        (sweep (λ cidr. LpmMap.trusted_delete k.networks k.normalize cidr dry_run)
          (sorted_texts (difference plan.trusted_cidrs_to_remove (keys cfg.trusted_src_ips))))

  -- the tunnel endpoints, whose texts are their own normal form
  unfoldable pub sit4_delta : Bool → LpmMap.LpmMap k.networks → ℕ × LpmMap.LpmMap k.networks
  sit4_delta dry_run m =
      both
        (sweep (λ ip. LpmMap.set k.networks (λ text. text) ip 1 dry_run)
          (sorted_texts (difference cfg.sit4_endpoints m.cache)))
        (sweep (λ ip. LpmMap.delete k.networks (λ text. text) ip dry_run)
          (sorted_texts (difference m.cache cfg.sit4_endpoints)))
        m

  -- the runtime configuration, written where it or the flags differ
  unfoldable pub runtime_checked :
      DesiredState → Bool → Option RuntimeConfig → Option ℕ × k.runtime.State → ℕ × k.runtime.State
  runtime_checked desired dry_run current (current_flags, s) =
      let wanted = desired.xdp_runtime_config in
      let flags = compute_cfg_flags cfg desired in
      let (fine, s') = set_config k.runtime wanted flags dry_run s in
      if is_current wanted flags current current_flags then (0, s) else (if fine then 0 else 1, s')

  unfoldable pub runtime_delta : DesiredState → Bool → k.runtime.State → ℕ × k.runtime.State
  unfolding runtime_checked
  runtime_delta desired dry_run s =
      let (current, s1) = get_config k.runtime s in
      runtime_checked desired dry_run current (get_cfg_flags k.runtime s1)

  unfoldable pub global_delta : Option ℕ → Bool → k.global_rate.State → ℕ × k.global_rate.State
  global_delta none dry_run s = (0, s)
  global_delta (some byte_rate) dry_run s =
      let (fine, s') = set_rate k.global_rate byte_rate dry_run s in (if fine then 0 else 1, s')

  -- the ports of a whitelist that are closed or opened
  unfoldable pub write_ports :
      ℕ → List ℕ → Bool → ArrayMap.ArrayMap k.ports → ℕ × ArrayMap.ArrayMap k.ports
  write_ports val ports dry_run =
      sweep (λ port. ArrayMap.set k.ports port val dry_run) (sorted_ports ports)
