-- ===== src/Syncer.antt =====
-- auto_xdp/syncer.py: one turn of the loop of `watch`, from the initialization of the backend to
-- the drift check. Times are milliseconds of the monotonic clock, and 0 says that no event is
-- pending, as 0.0 does in the program.
pub mod Timing
pub mod Failing
use auto_xdp.Base.{
  Bool, Option, bool_key, false, if◌then◌else◌, leb, list_key, ltb, nat_key, none, not, option_key,
  pair_key, some, string_key, true, ℕ, ◌&&◌, ◌+◌, ◌-◌, ◌==◌, ◌||◌,
}
use auto_xdp.Bpf.Kernel.{Reply, done, fails}

-- `DEBOUNCE_MAX_WAIT_SECONDS`, `FULL_RECONCILE_INTERVAL_SECONDS` and the interval of the drift check
abbrev pub debounce_max_wait : ℕ
debounce_max_wait = 1000

abbrev pub full_reconcile_interval : ℕ
full_reconcile_interval = 30000

abbrev pub stale_check_interval : ℕ
stale_check_interval = 30000

-- how `sync_once` ends: normally, with a DiscoveryError, with an OSError or another RuntimeError, or
-- with an exception that the loop does not catch, such as a ValueError or a struct.error
pub data Outcome : Type 0 where
  synced : Outcome
  discovery_error : Outcome
  backend_error : Outcome
  uncaught_error : Outcome

-- What the loop asks of a backend. `E` is what the system is like at a call. `verify_kernel_state`
-- raises an OSError when a map cannot be read; a backend may lack it.
pub record Port (E B : Type 0) : Type 0 where
  pub open_backend : E → Option B
  pub sync_once : E → B → Outcome × B
  pub last_apply_failures : B → ℕ
  pub has_verify : Bool
  pub verify_kernel_state : E → B → Reply ℕ × B
  pub run_ct_gc : E → B → Reply (Unit {0}) × B
  pub is_stale : E → B → Bool

-- `reload_requested` and what comes of it: the configuration is refused, or taken, and then the
-- backend may have to be built again.
pub data Reload : Type 0 where
  not_requested : Reload
  refused : Reload
  taken : Bool → Reload

-- One turn: what the system is like at each call, what happened, and each reading of the clock.
pub record Turn (E : Type 0) : Type 0 where
  pub at_open : E
  pub opened_t : ℕ
  -- what `drain_proc_events` returns, or `none` for its struct.error; `some false` where the
  -- connector is closed or not ready
  pub proc_event : Option Bool
  pub event_t : ℕ
  pub port_change : Bool
  pub at_relay : E
  pub relay_t : ℕ
  pub reload : Reload
  pub reload_t : ℕ
  pub debounce : ℕ
  pub now : ℕ
  pub event_drain : Option Bool
  pub at_event : E
  pub synced_t : ℕ
  pub armed_t : ℕ
  pub period_t : ℕ
  pub at_period : E
  pub period_done_t : ℕ
  pub gc_interval : ℕ
  pub gc_t : ℕ
  pub at_gc : E
  pub gc_done_t : ℕ
  pub stale_t : ℕ
  pub stale_done_t : ℕ
  pub at_check : E
  pub drift_t : ℕ

pub record Watch (B : Type 0) : Type 0 where
  pub backend : Option B
  pub last_event_t : ℕ
  pub first_event_t : ℕ
  pub last_reconcile_t : ℕ
  pub last_gc_t : ℕ
  pub last_stale_check_t : ℕ

-- a part of a turn goes on to the next part, starts the loop again, or ends it by an exception
pub data Step (B : Type 0) : Type 0 where
  goes_on : Watch B → Step B
  again : Watch B → Step B
  stops : Watch B → Step B

abbrev pub and_then : {B : Type 0} → Step B → (Watch B → Step B) → Step B
and_then (goes_on w) f = f w
and_then (again w) f = again w
and_then (stops w) f = stops w

module _ {E B : Type 0} (p : Port E B) (t : Turn E) where
  opened : Watch B → Outcome × B → Step B
  opened w (synced, b) = goes_on (record w {
    backend = some b;
    last_reconcile_t = t.opened_t;
    last_event_t = 0;
    first_event_t = 0;
  })
  opened w (discovery_error, b) =
      again (record w { backend = some b; last_reconcile_t = t.opened_t })
  opened w (backend_error, b) = again (record w { backend = some b })
  opened w (uncaught_error, b) = stops (record w { backend = some b })

  -- a backend that was opened stays open even when its first sync fails
  unfoldable pub initialize : Watch B → Step B
  unfolding opened
  initialize w = elim w.backend [
    | some b ↦ goes_on w
    | none ↦ elim (p.open_backend t.at_open) [
      | none ↦ again w
      | some b ↦ opened w (p.sync_once t.at_open b)
    ]
  ]

  -- a process event arms the debounce
  drained_events : Option Bool → Watch B → Step B
  drained_events none w = stops w
  drained_events (some false) w = goes_on w
  drained_events (some true) w = goes_on (record w {
    first_event_t = if w.first_event_t == 0 then t.event_t else w.first_event_t;
    last_event_t = t.event_t;
  })

  unfoldable pub take_proc_event : Watch B → Step B
  unfolding drained_events
  take_proc_event w = drained_events t.proc_event w

  relayed : Watch B → Outcome × B → Step B
  relayed w (synced, b) = goes_on (record w {
    backend = some b;
    last_reconcile_t = t.relay_t;
    last_event_t = 0;
    first_event_t = 0;
  })
  relayed w (discovery_error, b) =
      again (record w { backend = some b; last_event_t = t.relay_t; first_event_t = t.relay_t })
  relayed w (backend_error, b) = goes_on (record w { backend = none })
  relayed w (uncaught_error, b) = stops (record w { backend = some b })

  -- a port change from the relay syncs at once
  unfoldable pub take_port_change : Watch B → Step B
  unfolding relayed
  take_port_change w = elim w.backend [
    | none ↦ goes_on w
    | some b ↦ if t.port_change then relayed w (p.sync_once t.at_relay b) else goes_on w
  ]

  reloaded : Reload → Watch B → Step B
  reloaded not_requested w = goes_on w
  reloaded refused w = again w
  reloaded (taken backend_stale) w = goes_on (record w {
    backend = if backend_stale then none else w.backend;
    last_event_t = t.reload_t - t.debounce;
    first_event_t = t.reload_t - t.debounce;
  })

  unfoldable pub take_reload : Watch B → Step B
  unfolding reloaded
  take_reload w = reloaded t.reload w

  verified : Watch B → Reply ℕ × B → Step B
  verified w (fails e, b) = stops (record w { backend = some b })
  verified w (done n, b) =
      goes_on (record w { backend = some b; last_event_t = t.armed_t; first_event_t = t.armed_t })

  event_synced : Watch B → Outcome × B → Step B
  unfolding verified
  event_synced w (synced, b) =
      let w' = record w {
        backend = some b;
        last_reconcile_t = t.synced_t;
        last_event_t = 0;
        first_event_t = 0;
      } in
      if not (p.last_apply_failures b == 0) && p.has_verify
      then verified w' (p.verify_kernel_state t.at_event b)
      else goes_on w'
  event_synced w (discovery_error, b) =
      again (record w { backend = some b; last_event_t = t.synced_t; first_event_t = t.synced_t })
  event_synced w (backend_error, b) = again (record w { backend = none })
  event_synced w (uncaught_error, b) = stops (record w { backend = some b })

  -- a pending event syncs after a quiet time, or when it has waited long enough
  abbrev pub is_due : Watch B → Bool
  is_due w =
      not (w.last_event_t == 0)
      && (leb (w.last_event_t + t.debounce) t.now
          || leb (w.first_event_t + debounce_max_wait) t.now)

  -- what the connector sent meanwhile is drained first, and its result is not used
  drained_synced : Option Bool → Watch B → B → Step B
  unfolding event_synced
  drained_synced none w b = stops w
  drained_synced (some ready) w b = event_synced w (p.sync_once t.at_event b)

  unfoldable pub sync_on_event : Watch B → Step B
  unfolding drained_synced
  sync_on_event w = elim w.backend [
    | none ↦ again w
    | some b ↦ if is_due w then drained_synced t.event_drain w b else goes_on w
  ]

  period_synced : Watch B → Outcome × B → Step B
  period_synced w (synced, b) = goes_on (record w {
    backend = some b;
    last_reconcile_t = t.period_done_t;
    last_event_t = 0;
    first_event_t = 0;
  })
  period_synced w (discovery_error, b) =
      goes_on (record w { backend = some b; last_reconcile_t = t.period_done_t })
  period_synced w (backend_error, b) = again (record w { backend = none })
  period_synced w (uncaught_error, b) = stops (record w { backend = some b })

  unfoldable pub sync_periodically : Watch B → Step B
  unfolding period_synced
  sync_periodically w = elim w.backend [
    | none ↦ again w
    | some b ↦
        if leb (w.last_reconcile_t + full_reconcile_interval) t.period_t
        then period_synced w (p.sync_once t.at_period b)
        else goes_on w
  ]

  -- an OSError of the garbage collection is logged
  unfoldable pub collect_garbage : Watch B → Watch B
  collect_garbage w = elim w.backend [
    | none ↦ w
    | some b ↦
        if ltb 0 t.gc_interval && leb (w.last_gc_t + t.gc_interval) t.gc_t
        then record w { backend = some (p.run_ct_gc t.at_gc b).1; last_gc_t = t.gc_done_t }
        else w
  ]

  drift_checked : Watch B → Reply ℕ × B → Step B
  drift_checked w (fails e, b) = stops (record w { backend = some b })
  drift_checked w (done n, b) =
      if n == 0
      then goes_on (record w { backend = some b })
      else goes_on (record w {
        backend = some b;
        first_event_t = if w.first_event_t == 0 then t.drift_t else w.first_event_t;
        last_event_t = t.drift_t;
      })

  stale_checked : Watch B → B → Step B
  unfolding drift_checked
  stale_checked w b =
      if p.is_stale t.at_check b
      then goes_on (record w { backend = none })
      else if p.has_verify
      then drift_checked w (p.verify_kernel_state t.at_check b)
      else goes_on w

  unfoldable pub check_stale : Watch B → Step B
  unfolding stale_checked
  check_stale w = elim w.backend [
    | none ↦ goes_on w
    | some b ↦
        if leb (w.last_stale_check_t + stale_check_interval) t.stale_t
        then stale_checked (record w { last_stale_check_t = t.stale_done_t }) b
        else goes_on w
  ]

  -- the body of `while True`
  unfoldable pub turn : Watch B → Step B
  turn w = and_then (initialize w) (λ w0. and_then (take_proc_event w0) (λ w1.
      and_then (take_port_change w1) (λ w2. and_then (take_reload w2) (λ w3.
        and_then (sync_on_event w3)
          (λ w4. and_then (sync_periodically w4) (λ w5. check_stale (collect_garbage w5)))))))
