-- ===== src/Syncer/Timing.antt =====
-- What a complete turn of the loop of `watch` in auto_xdp/syncer.py guarantees about time.
use auto_xdp.Base.{
  Bool, Bool-cases, Option, Option-cases, arith, bool_key, false, if◌then◌else◌, inl, inr, leb,
  list_key, ltb, nat_key, none, not, option_key, pair_key, refl, some, string_key, subst, true, ℕ,
  ◌&&◌, ◌+◌, ◌<◌, ◌==◌, ◌↔◌, ◌≡◌, ◌≤◌, ◌⊎◌,
}
use auto_xdp.Bpf.Kernel.{Reply, done, fails}
use auto_xdp.Syncer.{
  Outcome, Port, Reload, Step, Turn, Watch, again, and_then, backend_error, check_stale,
  collect_garbage, debounce_max_wait, discovery_error, drained_events, drained_synced,
  drift_checked, event_synced, full_reconcile_interval, goes_on, initialize, is_due, not_requested,
  opened, period_synced, refused, relayed, reloaded, stale_check_interval, stale_checked, stops,
  sync_on_event, sync_periodically, synced, take_port_change, take_proc_event, take_reload, taken,
  turn, uncaught_error, verified,
}

-- the two times of a pending event are both set or both not
abbrev pub IsArmed : {B : Type 0} → Watch B → Type 0
IsArmed w = (w.last_event_t ≡ 0) ↔ (w.first_event_t ≡ 0)

-- The clock has left 0, and later readings of a turn are not earlier than those before.
pub record IsClock {E : Type 0} (t : Turn E) : Type 0 where
  pub event_set : 0 < t.event_t
  pub now_set : 0 < t.now
  pub armed_after : t.now ≤ t.armed_t
  pub done_after : t.period_t ≤ t.period_done_t
  pub drift_after : t.now ≤ t.drift_t

-- what holds where a part of a turn goes on
abbrev After : {B : Type 0} → (Watch B → Type 0) → Step B → Type 0
After P (goes_on w) = P w
After P (again w) = Unit
After P (stops w) = Unit

and_then-After :
    {B : Type 0} (Q P : Watch B → Type 0) (s : Step B) (f : Watch B → Step B)
    → After Q s
    → ((w : Watch B) → Q w → After P (f w))
    → After P (and_then s f)
and_then-After Q P (goes_on w) f q h = h w q
and_then-After Q P (again w) f q h = tt
and_then-After Q P (stops w) f q h = tt

After-goes_on :
    {B : Type 0} (P : Watch B → Type 0) (s : Step B) (w : Watch B) → s ≡ goes_on w → After P s → P w
After-goes_on P s w e h = subst (After P) e h

module _ {E B : Type 0} (p : Port E B) (t : Turn E) (c : IsClock t) where
  -- no event is pending, or the oldest has not waited as long as it may
  abbrev IsRecent : Watch B → Type 0
  IsRecent w = IsArmed w × ((w.first_event_t ≡ 0) ⊎ (t.now < w.first_event_t + debounce_max_wait))

  -- the last full reconcile lies within its interval
  abbrev IsTimely : Watch B → Type 0
  IsTimely w = IsRecent w × (t.period_t < w.last_reconcile_t + full_reconcile_interval)

  opened-IsArmed : (w : Watch B) (r : Outcome × B) → After IsArmed (opened p t w r)
  unfolding opened
  opened-IsArmed w (synced, b) = (λ e. refl, λ e. refl)
  opened-IsArmed w (discovery_error, b) = tt
  opened-IsArmed w (backend_error, b) = tt
  opened-IsArmed w (uncaught_error, b) = tt

  initialize-IsArmed : (w : Watch B) → IsArmed w → After IsArmed (initialize p t w)
  unfolding initialize
  initialize-IsArmed w h = elim (Option-cases w.backend) [
    | inr (b, open_now) ↦ rw (initialize, open_now) h
    | inl closed ↦ elim (Option-cases (p.open_backend t.at_open)) [
      | inl failed ↦ rw (initialize, closed, failed) tt
      | inr (b, fine) ↦ rw (initialize, closed, fine) (opened-IsArmed w (p.sync_once t.at_open b))
    ]
  ]

  drained_events-IsArmed :
      (drain : Option Bool) (w : Watch B) → IsArmed w → After IsArmed (drained_events p t drain w)
  unfolding drained_events
  drained_events-IsArmed none w h = tt
  drained_events-IsArmed (some false) w h = h
  drained_events-IsArmed (some true) w h = ground (arith, h, c.event_set)

  relayed-IsArmed : (w : Watch B) (r : Outcome × B) → IsArmed w → After IsArmed (relayed p t w r)
  unfolding relayed
  relayed-IsArmed w (synced, b) h = (λ e. refl, λ e. refl)
  relayed-IsArmed w (discovery_error, b) h = tt
  relayed-IsArmed w (backend_error, b) h = h
  relayed-IsArmed w (uncaught_error, b) h = tt

  take_port_change-IsArmed : (w : Watch B) → IsArmed w → After IsArmed (take_port_change p t w)
  unfolding take_port_change
  take_port_change-IsArmed w h = elim (Option-cases w.backend) [
    | inl closed ↦ rw (take_port_change, closed) h
    | inr (b, open_now) ↦ elim (Bool-cases t.port_change) [
      | inl changed ↦
          rw (take_port_change, open_now, changed) (relayed-IsArmed w (p.sync_once t.at_relay b) h)
      | inr quiet ↦ rw (take_port_change, open_now, quiet) h
    ]
  ]

  reloaded-IsArmed : (w : Watch B) (r : Reload) → IsArmed w → After IsArmed (reloaded p t r w)
  unfolding reloaded
  reloaded-IsArmed w not_requested h = h
  reloaded-IsArmed w refused h = tt
  reloaded-IsArmed w (taken backend_stale) h = (λ e. e, λ e. e)

  event_synced-IsRecent : (w : Watch B) (r : Outcome × B) → After IsRecent (event_synced p t w r)
  unfolding event_synced
  event_synced-IsRecent w (synced, b) =
      elim (Bool-cases (not (p.last_apply_failures b == 0) && p.has_verify)) [
        | inl verify ↦ rw verify (verified_recent (p.verify_kernel_state t.at_event b))
        | inr clean ↦ rw clean ((λ e. refl, λ e. refl), inl refl)
      ]
    where
      w' : Watch B
      w' = record w {
        backend = some b;
        last_reconcile_t = t.synced_t;
        last_event_t = 0;
        first_event_t = 0;
      }

      verified_recent : (r : Reply ℕ × B) → After IsRecent (verified p t w' r)
      verified_recent (fails e, b') = tt
      verified_recent (done n, b') = ((λ e. e, λ e. e), inr (omega (arith, c.armed_after)))
  event_synced-IsRecent w (discovery_error, b) = tt
  event_synced-IsRecent w (backend_error, b) = tt
  event_synced-IsRecent w (uncaught_error, b) = tt

  drained_synced-IsRecent :
      (drain : Option Bool) (w : Watch B) (b : B) → After IsRecent (drained_synced p t drain w b)
  unfolding drained_synced
  drained_synced-IsRecent none w b = tt
  drained_synced-IsRecent (some ready) w b = event_synced-IsRecent w (p.sync_once t.at_event b)

  sync_on_event-IsRecent : (w : Watch B) → IsArmed w → After IsRecent (sync_on_event p t w)
  unfolding sync_on_event
  sync_on_event-IsRecent w h = elim (Option-cases w.backend) [
    | inl closed ↦ rw (sync_on_event, closed) tt
    | inr (b, open_now) ↦ elim (Bool-cases (is_due p t w)) [
      | inl due ↦ rw (sync_on_event, open_now) (rw due (drained_synced-IsRecent t.event_drain w b))
      | inr waits ↦ rw (sync_on_event, open_now) (rw waits (h, ground (arith, h, waits)))
    ]
  ]

  period_synced-IsTimely :
      (w : Watch B) (r : Outcome × B) → IsRecent w → After IsTimely (period_synced p t w r)
  unfolding period_synced
  period_synced-IsTimely w (synced, b) h =
      (((λ e. refl, λ e. refl), inl refl), omega (arith, c.done_after))
  period_synced-IsTimely w (discovery_error, b) h = (h, omega (arith, c.done_after))
  period_synced-IsTimely w (backend_error, b) h = tt
  period_synced-IsTimely w (uncaught_error, b) h = tt

  sync_periodically-IsTimely : (w : Watch B) → IsRecent w → After IsTimely (sync_periodically p t w)
  unfolding sync_periodically
  sync_periodically-IsTimely w h = elim (Option-cases w.backend) [
    | inl closed ↦ rw (sync_periodically, closed) tt
    | inr (b, open_now) ↦
        elim (Bool-cases (leb (w.last_reconcile_t + full_reconcile_interval) t.period_t)) [
          | inl due ↦
              rw (sync_periodically, open_now)
                (rw due (period_synced-IsTimely w (p.sync_once t.at_period b) h))
          | inr early ↦ rw (sync_periodically, open_now) (rw early (h, ground (arith, early)))
        ]
  ]

  collect_garbage-IsTimely : (w : Watch B) → IsTimely w → IsTimely (collect_garbage p t w)
  unfolding collect_garbage
  collect_garbage-IsTimely w h = elim (Option-cases w.backend) [
    | inl closed ↦ rw (collect_garbage, closed) h
    | inr (b, open_now) ↦
        elim (Bool-cases (ltb 0 t.gc_interval && leb (w.last_gc_t + t.gc_interval) t.gc_t)) [
          | inl due ↦ rw (collect_garbage, open_now) (rw due h)
          | inr early ↦ rw (collect_garbage, open_now) (rw early h)
        ]
  ]

  drifted :
      (first : ℕ)
      → (first ≡ 0) ⊎ (t.now < first + debounce_max_wait)
      → let first' = if first == 0 then t.drift_t else first in
        (first' ≡ 0) ⊎ (t.now < first' + debounce_max_wait)
  drifted first h = elim (Bool-cases (first == 0)) [
    | inl idle ↦ rw idle (inr (omega (arith, c.drift_after)))
    | inr pending ↦ rw pending h
  ]

  drift_checked-IsTimely :
      (w : Watch B) (r : Reply ℕ × B) → IsTimely w → After IsTimely (drift_checked p t w r)
  unfolding drift_checked
  drift_checked-IsTimely w (fails e, b) h = tt
  drift_checked-IsTimely w (done n, b) h = elim (Bool-cases (n == 0)) [
    | inl none_found ↦ rw none_found h
    | inr drift ↦
        rw drift
          ((ground (arith, h.0.0, c.now_set, c.drift_after), drifted w.first_event_t h.0.1), h.1)
  ]

  stale_checked-IsTimely :
      (w : Watch B) (b : B) → IsTimely w → After IsTimely (stale_checked p t w b)
  unfolding stale_checked
  stale_checked-IsTimely w b h = elim (Bool-cases (p.is_stale t.at_check b)) [
    | inl stale ↦ rw stale h
    | inr fresh ↦ elim (Bool-cases p.has_verify) [
      | inl verify ↦
          rw (fresh, verify) (drift_checked-IsTimely w (p.verify_kernel_state t.at_check b) h)
      | inr lacks ↦ rw (fresh, lacks) h
    ]
  ]

  check_stale-IsTimely : (w : Watch B) → IsTimely w → After IsTimely (check_stale p t w)
  unfolding check_stale
  check_stale-IsTimely w h = elim (Option-cases w.backend) [
    | inl closed ↦ rw (check_stale, closed) h
    | inr (b, open_now) ↦
        elim (Bool-cases (leb (w.last_stale_check_t + stale_check_interval) t.stale_t)) [
          | inl due ↦
              rw (check_stale, open_now)
                (rw due
                  (stale_checked-IsTimely (record w { last_stale_check_t = t.stale_done_t }) b h))
          | inr early ↦ rw (check_stale, open_now) (rw early h)
        ]
  ]

  -- After a turn of the loop that runs to its end, every pending event has waited for less than
  -- the longest time allowed when the turn looked at it, the last full reconcile, or the failed
  -- attempt at one, was less than its interval ago, and the two times of a pending event are still
  -- both set or both not.
  pub turn_is_timely :
      (w w' : Watch B)
      → IsArmed w
      → turn p t w ≡ goes_on w'
      → IsArmed w'
        × ((w'.first_event_t ≡ 0) ⊎ (t.now < w'.first_event_t + debounce_max_wait))
        × (t.period_t < w'.last_reconcile_t + full_reconcile_interval)
  unfolding turn take_reload take_proc_event
  turn_is_timely w w' h e =
      let ends = After-goes_on IsTimely (turn p t w) w' e (
        and_then-After IsArmed IsTimely (initialize p t w) _ (initialize-IsArmed w h) (λ w0 h0.
          and_then-After IsArmed IsTimely (drained_events p t t.proc_event w0) _
            (drained_events-IsArmed t.proc_event w0 h0)
            (λ w1 h1.
              and_then-After IsArmed IsTimely (take_port_change p t w1) _
                (take_port_change-IsArmed w1 h1)
                (λ w2 h2.
                  and_then-After IsArmed IsTimely (reloaded p t t.reload w2) _
                    (reloaded-IsArmed w2 t.reload h2)
                    (λ w3 h3.
                      and_then-After IsRecent IsTimely (sync_on_event p t w3) _
                        (sync_on_event-IsRecent w3 h3)
                        (λ w4 h4.
                          and_then-After IsTimely IsTimely (sync_periodically p t w4) _
                            (sync_periodically-IsTimely w4 h4)
                            (λ w5 h5.
                              check_stale-IsTimely (collect_garbage p t w5)
                                (collect_garbage-IsTimely w5 h5)))))))) in
      (ends.0.0, ends.0.1, ends.1)
