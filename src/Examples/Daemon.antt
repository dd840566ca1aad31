-- ===== src/Examples/Daemon.antt =====
-- Turns of the loop of auto_xdp/syncer.py with a backend that is a number, a collection of garbage,
-- and a replaced blocklist.
use auto_xdp.Bpf.LpmMap
use auto_xdp.Base.{
  Bool, List, String, [], add, arith, bool_key, contains, difference, discard, erase, false, filter,
  if◌then◌else◌, insert, length, list_key, lookup, nat_key, none, option_key, pair_key, place, refl,
  some, sort, split_once, string_key, strip, true, ℕ, ◌+◌, ◌<◌, ◌∷◌, ◌≡◌, ◌⊎◌,
}
use auto_xdp.AbuseIpdb.{
  Entry, Replaced, RiskMaps, blocklist_entry, malformed, network, normalize_v4, passed_over,
  replace_all, replaced, roll_back, rolled_back, set_active, stage,
}
use auto_xdp.AbuseIpdb.Atomic.{replace_all_replaces, replace_all_rolls_back}
use auto_xdp.Backend.Apply.{run_ct_gc}
use auto_xdp.Backend.Collection.{held, run_ct_gc_keeps}
use auto_xdp.Bpf.Conntrack.{is_expired}
use auto_xdp.Bpf.ConntrackMaps.{v4}
use auto_xdp.Bpf.Kernel.{KernelMap, done, fails, has_colon, other_errno, sweep}
use auto_xdp.Bpf.LpmMap.{LpmMap}
use auto_xdp.Bpf.Runtime.{get_cfg_flags, get_config, lookup_raw, set_config}
use auto_xdp.Bpf.Samples.{table_kernel}
use auto_xdp.Samples.{sample_backend, sample_config, sample_flow, sample_kernels}
use auto_xdp.State.{RuntimeConfig}
use auto_xdp.Syncer.{
  Port, Turn, Watch, check_stale, collect_garbage, discovery_error, goes_on, initialize,
  not_requested, sync_on_event, sync_periodically, synced, take_port_change, take_proc_event,
  take_reload, turn,
}
use auto_xdp.Syncer.Timing.{IsArmed, turn_is_timely}

-- `at_open`, ... are true where the system answers; a backend is its number of failed updates
abbrev sample_port : Port Bool ℕ
sample_port = record {
  open_backend = λ up. if up then some 0 else none;
  sync_once = λ up b. if up then (synced, b) else (discovery_error, b);
  last_apply_failures = λ b. b;
  has_verify = true;
  verify_kernel_state = λ up b. if up then (done b, 0) else (fails (other_errno 5), b);
  run_ct_gc = λ up b. (done tt, b);
  is_stale = λ up b. false;
}

abbrev sample_turn : Bool → Turn Bool
sample_turn up = record {
  at_open = true;
  opened_t = 100000;
  proc_event = some true;
  event_drain = some false;
  event_t = 100010;
  port_change = false;
  at_relay = true;
  relay_t = 100020;
  reload = not_requested;
  reload_t = 100030;
  debounce = 400;
  now = 100040;
  at_event = up;
  synced_t = 100050;
  armed_t = 100060;
  period_t = 100070;
  at_period = true;
  period_done_t = 100080;
  gc_interval = 300000;
  gc_t = 100090;
  at_gc = true;
  gc_done_t = 100100;
  stale_t = 100110;
  stale_done_t = 100120;
  at_check = up;
  drift_t = 100130;
}

-- an event has waited since 99000, and the backend had 2 failed updates
abbrev waiting : Watch ℕ
waiting = record {
  backend = some 2;
  last_event_t = 99990;
  first_event_t = 99000;
  last_reconcile_t = 90000;
  last_gc_t = 0;
  last_stale_check_t = 90000;
}

-- the pending event syncs, the maps are verified, and the event is armed again
abbrev synced_watch : Watch ℕ
synced_watch = record {
  backend = some 0;
  last_event_t = 100060;
  first_event_t = 100060;
  last_reconcile_t = 100050;
  last_gc_t = 0;
  last_stale_check_t = 90000;
}

turn_syncs : turn sample_port (sample_turn true) waiting ≡ goes_on synced_watch
unfolding turn initialize take_proc_event take_port_change take_reload sync_on_event
    sync_periodically collect_garbage check_stale
turn_syncs = refl

turn_is_timely_example :
    IsArmed synced_watch
    × ((synced_watch.first_event_t ≡ 0) ⊎ (100040 < synced_watch.first_event_t + 1000))
    × (100070 < synced_watch.last_reconcile_t + 30000)
turn_is_timely_example =
    turn_is_timely sample_port (sample_turn true)
      (record {
        event_set = omega arith;
        now_set = omega arith;
        armed_after = omega arith;
        done_after = omega arith;
        drift_after = omega arith;
      })
      waiting synced_watch (ground arith, ground arith) turn_syncs

-- the drift check of a backend without pending events cannot read a map
abbrev quiet : Watch ℕ
quiet = record {
  backend = some 0;
  last_event_t = 0;
  first_event_t = 0;
  last_reconcile_t = 90000;
  last_gc_t = 0;
  last_stale_check_t = 0;
}

abbrev quiet_turn : Turn Bool
quiet_turn = record (sample_turn false) { proc_event = some false }

abbrev stopped_watch : Watch ℕ
stopped_watch = record quiet { last_stale_check_t = 100120 }

-- at the time 100 nanoseconds the flow to port 80, seen at 5, has not expired
run_ct_gc_keeps_example :
    held sample_kernels sample_config v4
      (run_ct_gc sample_kernels sample_config 100 100 100 100 sample_backend).1.conntrack_map
      (sample_flow 80)
    ≡ some 5
unfolding lookup is_expired
run_ct_gc_keeps_example =
    run_ct_gc_keeps sample_kernels sample_config v4 100 100 100 100 sample_backend (sample_flow 80)
      5 refl refl

abbrev lists : KernelMap String ℕ
lists = table_kernel

abbrev slots : KernelMap ℕ (RuntimeConfig × ℕ)
slots = table_kernel

abbrev parse_entry : String → Entry
parse_entry text = if has_colon text then passed_over else network text

-- 192.0.2.1 is listed
abbrev listed : RiskMaps lists slots
listed = record {
  map4 = record { kernel = (("192.0.2.1", 1) ∷ [], false); cache = "192.0.2.1" ∷ [] };
  runtime_cfg = ([], false);
}

-- the same, where the slot of the runtime configuration takes no update
abbrev blocked : RiskMaps lists slots
blocked = record listed { runtime_cfg = ([], true) }

abbrev asked : List String
asked = "192.0.2.7" ∷ "2001:db8::1" ∷ []

asked_target : normalize_v4 parse_entry [] asked ≡ some ("192.0.2.7" ∷ [])
unfolding normalize_v4 contains add has_colon
asked_target = refl

-- an entry with a network of its own, a comment, an address, and a text that is none
blocklist_entries :
    (blocklist_entry some some " 10.0.0.0/8\n" ≡ network "10.0.0.0/8")
    × (blocklist_entry some some "# list" ≡ passed_over)
    × (blocklist_entry some some "192.0.2.7" ≡ network "192.0.2.7/32")
    × (blocklist_entry some (λ name. none) "::g" ≡ malformed)
unfolding blocklist_entry strip split_once has_colon
blocklist_entries = (refl, refl, refl, refl)

abbrev outcome : RiskMaps lists slots → Replaced lists slots × RiskMaps lists slots
outcome r = replace_all lists slots parse_entry asked r

replaced_one : (outcome listed).0 ≡ replaced 1
unfolding replace_all normalize_v4 contains add has_colon stage sort place difference filter lookup
    insert erase discard LpmMap.set LpmMap.delete set_active get_cfg_flags get_config lookup_raw
    set_config
replaced_one = refl

rolled_back_all : (outcome blocked).0 ≡ rolled_back 1
unfolding replace_all normalize_v4 contains add has_colon stage sort place difference filter lookup
    insert erase discard LpmMap.set LpmMap.delete set_active get_cfg_flags get_config lookup_raw
    set_config roll_back sweep
rolled_back_all = refl

replace_all_replaces_example :
    (1 ≡ length {A = String} ("192.0.2.7" ∷ []))
    × ((x : String) → contains x (outcome listed).1.map4.cache ≡ contains x ("192.0.2.7" ∷ []))
replace_all_replaces_example =
    replace_all_replaces lists slots parse_entry asked ("192.0.2.7" ∷ []) listed (outcome listed).1
      1 asked_target (λ i. (replaced_one i, (outcome listed).1))

-- the same, where the map of the networks takes no new entry
abbrev full : RiskMaps lists slots
full = record listed {
  map4 = record { kernel = (("192.0.2.1", 1) ∷ [], true); cache = "192.0.2.1" ∷ [] };
}

rolled_back_cleanly : (outcome full).0 ≡ rolled_back 0
unfolding replace_all normalize_v4 contains add has_colon stage sort place difference filter lookup
    insert erase discard LpmMap.set LpmMap.delete set_active get_cfg_flags get_config lookup_raw
    set_config roll_back sweep
rolled_back_cleanly = refl

replace_all_rolls_back_example :
    contains "192.0.2.1" (outcome full).1.map4.cache ≡ contains "192.0.2.1" full.map4.cache
replace_all_rolls_back_example =
    replace_all_rolls_back lists slots parse_entry asked ("192.0.2.7" ∷ []) full (outcome full).1
      asked_target (λ i. (rolled_back_cleanly i, (outcome full).1)) "192.0.2.1"
