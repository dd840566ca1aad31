-- ===== src/Backend.antt =====
-- auto_xdp/backends/base.py and backends/xdp.py: the backend as the state of its maps, and the
-- order in which a plan is carried out on them.
pub mod Phases
pub mod Apply
pub mod Reads
pub mod Idle
pub mod IdlePhases
pub mod DryRun
pub mod Total
pub mod Collection
pub mod Stale
pub mod Exposure
pub mod Agreement
use Prim.Native.Nat.{bit_and, bit_or}
use auto_xdp.Bpf.AclMap
use auto_xdp.Bpf.ArrayMap
use auto_xdp.Bpf.LpmMap
use auto_xdp.Bpf.RateOuter
use auto_xdp.Base.{
  Bool, Dict, List, Option, String, [], add, bool_key, difference, erase_all, get_or, if◌then◌else◌,
  insert, keys, leb, list_key, lookup, nat_key, none, option_key, pair_key, some, string_key, ℕ,
  ◌+◌, ◌==◌, ◌∷◌,
}
use auto_xdp.Bpf.AclMap.{AclMap}
use auto_xdp.Bpf.AclMaps.{active_rules}
use auto_xdp.Bpf.ArrayMap.{ArrayMap}
use auto_xdp.Bpf.ConntrackMaps.{ConntrackMaps, active_flows, existing_flows}
use auto_xdp.Bpf.Kernel.{KernelMap}
use auto_xdp.Bpf.LpmMap.{LpmMap}
use auto_xdp.Bpf.PortPolicy.{Field, Fields, PortPolicyMap, active}
use auto_xdp.Bpf.Runtime.{
  cfg_flag_abuseipdb_enabled, cfg_flag_bogon_disabled, cfg_flag_drop_events_disabled,
  cfg_flag_slot_drop, get_cfg_flags, get_config, get_rate,
}
use auto_xdp.Config.{Config, Float}
use auto_xdp.State.{
  AppliedState, Bytes, DesiredState, ReconcilePlan, RuntimeConfig, compute_reconcile_plan,
}

-- The kernel's side of each kind of map, and what `ipaddress` makes of the text of a network.
pub record Kernels : Type 1 where
  pub ports : KernelMap ℕ ℕ
  pub networks : KernelMap String ℕ
  pub flows : KernelMap Bytes ℕ
  pub policies : KernelMap ℕ Fields
  pub rules : KernelMap String (List ℕ)
  pub runtime : KernelMap ℕ (RuntimeConfig × ℕ)
  pub global_rate : KernelMap ℕ ℕ
  pub rate_slots : KernelMap ℕ ℕ
  pub map_create : ℕ → rate_slots.State → Bool × rate_slots.State
  pub normalize : String → String

-- `XdpBackend`. A map that could not be opened is `none`; the views over a policy map exist where
-- the policy map does.
pub record Backend (k : Kernels) : Type 0 where
  pub last_apply_failures : ℕ
  pub tcp_map : ArrayMap.ArrayMap k.ports
  pub udp_map : ArrayMap.ArrayMap k.ports
  pub trusted_map : LpmMap.TrustedMaps k.networks k.normalize
  pub conntrack_map : ConntrackMaps k.flows
  pub udp_conntrack_map : ConntrackMaps k.flows
  pub conntrack_stale_rounds : Dict Bytes ℕ
  pub tcp_policy_map : Option (PortPolicyMap k.policies)
  pub udp_policy_map : Option (PortPolicyMap k.policies)
  pub acl_maps : Option (AclMap.AclMaps k.rules)
  pub runtime_config_map : Option k.runtime.State
  pub global_rl_map : Option k.global_rate.State
  pub sctp_map : Option (ArrayMap.ArrayMap k.ports)
  pub sit4_map : Option (LpmMap.LpmMap k.networks)
  pub syn4_outer : Option (RateOuter.RateOuterMap k.rate_slots k.map_create)
  pub syn6_outer : Option (RateOuter.RateOuterMap k.rate_slots k.map_create)
  pub udprt4_outer : Option (RateOuter.RateOuterMap k.rate_slots k.map_create)
  pub udprt6_outer : Option (RateOuter.RateOuterMap k.rate_slots k.map_create)

-- `_compute_cfg_flags`
unfoldable pub compute_cfg_flags : {F : Float} → Config F → DesiredState → ℕ
compute_cfg_flags cfg desired =
    let bogon = if desired.bogon_filter_enabled then 0 else cfg_flag_bogon_disabled in
    let events = if desired.drop_events_enabled then 0 else cfg_flag_drop_events_disabled in
    let abuse = if cfg.abuseipdb_enabled then cfg_flag_abuseipdb_enabled else 0 in
    let slot = if cfg.slot_default_action == "drop" then cfg_flag_slot_drop else 0 in
    bit_or (bit_or (bit_or bogon events) abuse) slot

-- `None if flags is None else not bool(flags & flag)`
abbrev pub flag_off : ℕ → Option ℕ → Option Bool
flag_off flag none = none
flag_off flag (some flags) = some (bit_and flags flag == 0)

-- what a map that is not open shows
abbrev pub shown_by {ℓ κ} : {M : Type ℓ} {A : Type κ} → A → (M → A) → Option M → A
shown_by closed read none = closed
shown_by closed read (some m) = read m

module _ (k : Kernels) where
  runtime_read :
      {A : Type 0}
      → (k.runtime.State → Option A × k.runtime.State)
      → Backend k
      → Option A × Backend k
  runtime_read read b = elim b.runtime_config_map [
    | none ↦ (none, b)
    | some s ↦ let (found, s') = read s in (found, record b { runtime_config_map = some s' })
  ]

  -- `_cfg_flag_bogon`, `_cfg_flag_drop_events`
  unfoldable pub cfg_flag : ℕ → Backend k → Option Bool × Backend k
  unfolding runtime_read
  cfg_flag flag b =
      let (flags, b') = runtime_read (get_cfg_flags k.runtime) b in (flag_off flag flags, b')

  global_read : Backend k → Option ℕ × Backend k
  global_read b = elim b.global_rl_map [
    | none ↦ (none, b)
    | some s ↦
        let (found, s') = get_rate k.global_rate s in
        (some found, record b { global_rl_map = some s' })
  ]

  unfoldable pub get_applied_state : Backend k → AppliedState × Backend k
  unfolding global_read runtime_read
  get_applied_state b =
      let (bogon, b1) = cfg_flag cfg_flag_bogon_disabled b in
      let (events, b2) = cfg_flag cfg_flag_drop_events_disabled b1 in
      let (byte_rate, b3) = global_read b2 in
      let (config, b4) = runtime_read (get_config k.runtime) b3 in
      (
        record {
          tcp_ports = ArrayMap.active_ports k.ports b.tcp_map;
          udp_ports = ArrayMap.active_ports k.ports b.udp_map;
          sctp_ports = shown_by [] (ArrayMap.active_ports k.ports) b.sctp_map;
          trusted_cidrs = LpmMap.trusted_active_keys k.networks k.normalize b.trusted_map;
          conntrack_entries = active_flows k.flows b.conntrack_map;
          tcp_syn_rate_limits = shown_by [] (active k.policies Field.rate_field) b.tcp_policy_map;
          tcp_syn_agg_rate_limits =
              shown_by [] (active k.policies Field.agg_rate_field) b.tcp_policy_map;
          tcp_conn_limits = shown_by [] (active k.policies Field.conn_field) b.tcp_policy_map;
          tcp_conn_prefix_limits =
              shown_by [] (active k.policies Field.conn_prefix_field) b.tcp_policy_map;
          tcp_conn_port_limits =
              shown_by [] (active k.policies Field.conn_port_field) b.tcp_policy_map;
          udp_rate_limits = shown_by [] (active k.policies Field.rate_field) b.udp_policy_map;
          udp_agg_rate_limits =
              shown_by [] (active k.policies Field.agg_rate_field) b.udp_policy_map;
          acl_rules = shown_by [] (active_rules k.rules k.normalize) b.acl_maps;
          bogon_filter_enabled = bogon;
          drop_events_enabled = events;
          rate_limit_source_prefix_v4 = 32;
          rate_limit_source_prefix_v6 = 128;
          udp_global_byte_rate = byte_rate;
          xdp_runtime_config = config;
        },
        b4,
      )

-- One more miss for each flow in turn, and the flows that have reached the number of rounds.
unfoldable pub count_misses : ℕ → List Bytes → Dict Bytes ℕ → List Bytes × Dict Bytes ℕ
count_misses limit [] counts = ([], counts)
count_misses limit (key ∷ flows) counts =
    let rounds = get_or (lookup key counts) 0 + 1 in
    let (ready, counts') = count_misses limit flows (insert key rounds counts) in
    (if leb limit rounds then add key ready else ready, counts')

module _ (k : Kernels) {F : Float} (cfg : Config F) where
  unfoldable pub build_reconcile_plan :
      DesiredState → AppliedState → Backend k → ReconcilePlan × Backend k
  build_reconcile_plan desired applied b =
      let plan = compute_reconcile_plan desired applied in
      let (present, flows) = existing_flows k.flows desired.conntrack_entries b.conntrack_map in
      let to_remove = plan.conntrack_entries_to_remove in
      let wanted_gone = erase_all desired.conntrack_entries b.conntrack_stale_rounds in
      let (ready, counts) = count_misses cfg.xdp_conntrack_stale_reconciles to_remove wanted_gone in
      (
        record plan {
          conntrack_entries_to_add = difference desired.conntrack_entries present;
          conntrack_entries_to_remove = ready;
        },
        record b {
          conntrack_map = flows;
          conntrack_stale_rounds = erase_all (difference (keys counts) to_remove) counts;
        },
      )
