-- ===== src/Bpf/Runtime.antt =====
-- `BpfRuntimeConfigMap` and `BpfGlobalRlMap` of auto_xdp/bpf/maps.py: two maps with one slot, which
-- have no cache.
use mathlib.Core.Option
use auto_xdp.Base.{
  Bool, Option, bool_key, false, if◌then◌else◌, list_key, nat_key, none, option_key, pair_key, some,
  string_key, true, ℕ,
}
use auto_xdp.Bpf.Kernel.{KernelMap, Reply, done, fails}
use auto_xdp.State.{RuntimeConfig}

abbrev pub cfg_flag_bogon_disabled : ℕ
cfg_flag_bogon_disabled = 1

abbrev pub cfg_flag_abuseipdb_enabled : ℕ
cfg_flag_abuseipdb_enabled = 2

abbrev pub cfg_flag_drop_events_disabled : ℕ
cfg_flag_drop_events_disabled = 4

abbrev pub cfg_flag_slot_drop : ℕ
cfg_flag_slot_drop = 8

module _ (kernel : KernelMap ℕ (RuntimeConfig × ℕ)) where
  raw_reply : Reply (RuntimeConfig × ℕ) × kernel.State → Option (RuntimeConfig × ℕ) × kernel.State
  raw_reply (done raw, s) = (some raw, s)
  raw_reply (fails e, s) = (none, s)

  unfoldable pub lookup_raw : kernel.State → Option (RuntimeConfig × ℕ) × kernel.State
  unfolding raw_reply
  lookup_raw s = raw_reply (kernel.lookup_elem 0 s)

  unfoldable pub get_config : kernel.State → Option RuntimeConfig × kernel.State
  get_config s = let (raw, s') = lookup_raw s in (Option.map (λ r. r.0) raw, s')

  unfoldable pub get_cfg_flags : kernel.State → Option ℕ × kernel.State
  get_cfg_flags s = let (raw, s') = lookup_raw s in (Option.map (λ r. r.1) raw, s')

  write_reply : Reply (Unit {0}) × kernel.State → Bool × kernel.State
  write_reply (done _, s) = (true, s)
  write_reply (fails e, s) = (false, s)

  unfoldable pub set_config : RuntimeConfig → ℕ → Bool → kernel.State → Bool × kernel.State
  unfolding write_reply
  set_config fields cfg_flags dry_run s =
      if dry_run then (true, s) else write_reply (kernel.update_elem 0 (fields, cfg_flags) s)

-- The slot of the global rate limit: the rate alone is modelled, the counters are the kernel's.
module _ (kernel : KernelMap ℕ ℕ) where
  rate_reply : Reply ℕ × kernel.State → ℕ × kernel.State
  rate_reply (done byte_rate, s) = (byte_rate, s)
  rate_reply (fails e, s) = (0, s)

  unfoldable pub get_rate : kernel.State → ℕ × kernel.State
  unfolding rate_reply
  get_rate s = rate_reply (kernel.lookup_elem 0 s)

  rate_written : Reply (Unit {0}) × kernel.State → Bool × kernel.State
  rate_written (done _, s) = (true, s)
  rate_written (fails e, s) = (false, s)

  unfoldable pub set_rate : ℕ → Bool → kernel.State → Bool × kernel.State
  unfolding rate_written
  set_rate byte_rate dry_run s =
      if dry_run then (true, s) else rate_written (kernel.update_elem 0 byte_rate s)
