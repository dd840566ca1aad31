-- ===== src/AbuseIpdb.antt =====
-- `BpfRiskMaps` of auto_xdp/abuseipdb.py: the blocklist of IPv4 networks, replaced as a whole. The
-- entries are in their normal form, as `_normalize_v4` gives them, so the LPM map takes them as
-- they are.
pub mod Rollback
pub mod Atomic
use Prim.Native.Char.{code}
use Prim.Native.Nat.{bit_and, bit_or}
use auto_xdp.Bpf.LpmMap
use auto_xdp.Base.{
  Bool, List, Option, String, [], add, bool_key, contains, difference, false, get_or, if◌then◌else◌,
  is_some, length, list_key, nat_key, none, not, option_key, pair_key, some, sort, split_once,
  string_key, strip, text_append, text_leb, true, ℕ, ◌+◌, ◌-◌, ◌==◌, ◌>>=◌, ◌||◌, ◌∷◌,
}
use auto_xdp.Bpf.Kernel.{KernelMap, has_colon, sweep}
use auto_xdp.Bpf.LpmMap.{LpmMap}
use auto_xdp.Bpf.Runtime.{cfg_flag_abuseipdb_enabled, get_cfg_flags, get_config, set_config}
use auto_xdp.State.{RuntimeConfig}

-- what an entry is: a blank, a comment or an IPv6 network is passed over
pub data Entry : Type 0 where
  passed_over : Entry
  network : String → Entry
  malformed : Entry

abbrev network_or : Option String → Entry
network_or none = malformed
network_or (some cidr) = network cidr

-- One entry of `_normalize_v4`; `ipv4` and `ipv6` are `str` of the networks of ipaddress, which are
-- `none` for a ValueError.
unfoldable pub blocklist_entry :
    (String → Option String) → (String → Option String) → String → Entry
blocklist_entry ipv4 ipv6 raw_ip =
    let value = strip raw_ip in
    if value == "" || is_comment value
    then passed_over
    else if has_colon value
    then (if is_some (ipv6 value) then passed_over else malformed)
    else network_or
        (ipv4 (if is_some (split_once b'/' value) then value else text_append value "/32"))
  where
    is_comment : String → Bool
    is_comment String.[] = false
    is_comment (String.◌∷◌ c rest) = code c == b'#'

-- `_normalize_v4`, where `parse` is `blocklist_entry` of ipaddress; `none` is the ValueError
unfoldable pub normalize_v4 : (String → Entry) → List String → List String → Option (List String)
normalize_v4 parse seen [] = some []
normalize_v4 parse seen (ip ∷ ips) = elim (parse ip) [
  | passed_over ↦ normalize_v4 parse seen ips
  | malformed ↦ none
  | network cidr ↦
      let rest = normalize_v4 parse (add cidr seen) ips in
      if contains cidr seen then rest else (do more ← rest; some (cidr ∷ more))
]

-- A loop that ends at the first operation that returns False: whether none did, and what was done.
unfoldable pub stage :
    {M : Type 0} → (String → M → Bool × M) → List String → M → Bool × List String × M
stage op [] m = (true, [], m)
stage op (cidr ∷ cidrs) m =
    let (fine, m') = op cidr m in
    let (all, past, m'') = stage op cidrs m' in
    if fine then (all, cidr ∷ past, m'') else (false, [], m')

abbrev pub reverse : List String → List String → List String
reverse [] past = past
reverse (x ∷ xs) past = reverse xs (x ∷ past)

-- `(0,) * 8`
abbrev no_timing : RuntimeConfig
no_timing = record {
  tcp_timeout_ns = 0;
  udp_timeout_ns = 0;
  conntrack_refresh_ns = 0;
  icmp_burst_packets = 0;
  icmp_ns_per_token = 0;
  udp_global_window_ns = 0;
  rate_window_ns = 0;
  syn_timeout_ns = 0;
}

module _ (networks : KernelMap String ℕ) (runtime : KernelMap ℕ (RuntimeConfig × ℕ)) where
  pub record RiskMaps : Type 0 where
    pub map4 : LpmMap.LpmMap networks
    pub runtime_cfg : runtime.State

  -- false is the OSError
  unfoldable pub set_active : Bool → runtime.State → Bool × runtime.State
  set_active is_active s =
      let (flags, s1) = get_cfg_flags runtime s in
      let (timing, s2) = get_config runtime s1 in
      let old = get_or flags 0 in
      set_config runtime (get_or timing no_timing)
        (if is_active
          then bit_or old cfg_flag_abuseipdb_enabled
          else old - bit_and old cfg_flag_abuseipdb_enabled)
        false s2

  abbrev pub set_entry : String → LpmMap.LpmMap networks → Bool × LpmMap.LpmMap networks
  set_entry cidr m = LpmMap.set networks (λ text. text) cidr 1 false m

  abbrev pub delete_entry : String → LpmMap.LpmMap networks → Bool × LpmMap.LpmMap networks
  delete_entry cidr m = LpmMap.delete networks (λ text. text) cidr false m

  -- the staged entries are removed first, then the stale ones are put back; the number is that of
  -- the failures logged
  unfoldable pub roll_back :
      List String → List String → Bool → LpmMap.LpmMap networks → runtime.State → ℕ × RiskMaps
  roll_back added removed previous_active m s =
      let (failures, m1) = sweep delete_entry (reverse added []) m in
      let (more, m2) = sweep set_entry removed m1 in
      let (fine, s1) = set_active previous_active s in
      (failures + more + (if fine then 0 else 1), record { map4 = m2; runtime_cfg = s1 })

  pub data Replaced : Type 0 where
    -- the number of entries
    replaced : ℕ → Replaced
    -- the ValueError, before anything was touched
    invalid : Replaced
    -- another exception, with the failures of the roll-back
    rolled_back : ℕ → Replaced

  activated :
      List String
      → List String
      → List String
      → Bool
      → LpmMap.LpmMap networks
      → Bool × runtime.State
      → Replaced × RiskMaps
  activated target added removed previous_active m (true, s) =
      (replaced (length target), record { map4 = m; runtime_cfg = s })
  activated target added removed previous_active m (false, s) =
      let (failures, r) = roll_back added removed previous_active m s in (rolled_back failures, r)

  removed_stale :
      List String
      → List String
      → Bool
      → runtime.State
      → Bool × List String × LpmMap.LpmMap networks
      → Replaced × RiskMaps
  unfolding activated
  removed_stale target added previous_active s (true, removed, m) =
      activated target added removed previous_active m (set_active (not (target == [])) s)
  removed_stale target added previous_active s (false, removed, m) =
      let (failures, r) = roll_back added removed previous_active m s in (rolled_back failures, r)

  staged_new :
      List String
      → List String
      → Bool
      → runtime.State
      → Bool × List String × LpmMap.LpmMap networks
      → Replaced × RiskMaps
  unfolding removed_stale
  staged_new target previous previous_active s (true, added, m) =
      removed_stale target added previous_active s
        (stage delete_entry (sort text_leb (difference previous target)) m)
  staged_new target previous previous_active s (false, added, m) =
      let (failures, r) = roll_back added [] previous_active m s in (rolled_back failures, r)

  unfoldable pub replace_all : (String → Entry) → List String → RiskMaps → Replaced × RiskMaps
  unfolding staged_new
  replace_all parse ips r = elim (normalize_v4 parse [] ips) [
    | none ↦ (invalid, r)
    | some target ↦
        let previous = r.map4.cache in
        let (flags, s) = get_cfg_flags runtime r.runtime_cfg in
        let previous_active = not (bit_and (get_or flags 0) cfg_flag_abuseipdb_enabled == 0) in
        staged_new target previous previous_active s
          (stage set_entry (sort text_leb (difference target previous)) r.map4)
  ]
