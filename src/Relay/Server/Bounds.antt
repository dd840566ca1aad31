-- ===== src/Relay/Server/Bounds.antt =====
-- The sizes that pkt_relay.py keeps below its limits, and the age of its history.
use auto_xdp.Base.{
  Bool, Bool-cases, List, [], arith, bool_key, false, inl, inr, length, length-append, length-drop,
  list_key, ltb, nat_key, option_key, pair_key, string_key, true, ℕ, ◌++◌, ◌-◌, ◌∷◌, ◌≡◌, ◌≤◌,
}
use auto_xdp.Relay.Server.{
  Action, Event, RelayServer, accept_client, accepts, broadcast, drop_client, perform, put_all,
  put_nowait, read_events, reads, remember, run, take_event, takes, trim, trim_history, trims,
}

-- The history and the queue are within their limits, and the limits are as configured.
pub record IsBounded (max_events queue_max : ℕ) (s : RelayServer) : Type 0 where
  pub events : s.max_events ≡ max_events
  pub room : s.queue_max ≡ queue_max
  pub history : length s.history ≤ max_events
  pub queue : length s.queue ≤ queue_max

length-remember :
    (max_events : ℕ) (ev : Event) (history : List Event)
    → length (remember max_events ev history) ≤ max_events
unfolding remember
length-remember max_events ev history =
    omega (arith, length-drop (length (history ++ (ev ∷ [])) - max_events) (history ++ (ev ∷ [])))

length-trim : (cutoff : ℕ) (history : List Event) → length (trim cutoff history) ≤ length history
unfolding trim
length-trim cutoff [] = omega arith
length-trim cutoff (ev ∷ history) = ground (arith, length-trim cutoff history)

module _ (max_events queue_max : ℕ) where
  put_nowait-IsBounded :
      (ev : Event) (s : RelayServer)
      → IsBounded max_events queue_max s
      → IsBounded max_events queue_max (put_nowait ev s)
  unfolding put_nowait
  put_nowait-IsBounded ev s b = elim (Bool-cases (ltb (length s.queue) s.queue_max)) [
    | inl room ↦ rw room (record {
      events = b.events;
      room = b.room;
      history = b.history;
      queue = ground (arith, room, b.room, length-append s.queue (ev ∷ []));
    })
    | inr full ↦ rw full b
  ]

  put_all-IsBounded :
      (evs : List Event) (s : RelayServer)
      → IsBounded max_events queue_max s
      → IsBounded max_events queue_max (put_all evs s)
  unfolding put_all
  put_all-IsBounded [] s b = b
  put_all-IsBounded (ev ∷ evs) s b =
      put_all-IsBounded evs (put_nowait ev s) (put_nowait-IsBounded ev s b)

  trim_history-IsBounded :
      (now : ℕ) (s : RelayServer)
      → IsBounded max_events queue_max s
      → IsBounded max_events queue_max (trim_history now s)
  unfolding trim_history
  trim_history-IsBounded now s b = record {
    events = b.events;
    room = b.room;
    history = omega (arith, length-trim (now - s.retention) s.history, b.history);
    queue = b.queue;
  }

  accept_client-IsBounded :
      (now fd : ℕ) (authorized sends : Bool) (s : RelayServer)
      → IsBounded max_events queue_max s
      → IsBounded max_events queue_max (accept_client now fd authorized sends s)
  unfolding accept_client
  accept_client-IsBounded now fd false sends s b = b
  accept_client-IsBounded now fd true false s b = trim_history-IsBounded now s b
  accept_client-IsBounded now fd true true s b =
      let t = trim_history-IsBounded now s b in
      record { events = t.events; room = t.room; history = t.history; queue = t.queue }

  take_event-IsBounded :
      (sends : ℕ → Bool) (s : RelayServer)
      → IsBounded max_events queue_max s
      → IsBounded max_events queue_max (take_event sends s)
  unfolding take_event broadcast
  take_event-IsBounded sends s b = go s.queue b.queue
    where
      go :
          (queue : List Event)
          → length queue ≤ queue_max
          → IsBounded max_events queue_max (take_event sends (record s { queue = queue }))
      go [] h = record { events = b.events; room = b.room; history = b.history; queue = h }
      go (ev ∷ queue) h = record {
        events = b.events;
        room = b.room;
        history = omega (arith, length-remember s.max_events ev s.history, b.events);
        queue = omega arith;
      }

  perform-IsBounded :
      (a : Action) (s : RelayServer)
      → IsBounded max_events queue_max s
      → IsBounded max_events queue_max (perform a s)
  unfolding perform drop_client
  perform-IsBounded (read_events evs) s b = put_all-IsBounded evs s b
  perform-IsBounded (accepts now fd authorized sends) s b =
      accept_client-IsBounded now fd authorized sends s b
  perform-IsBounded (reads fd true) s b = b
  perform-IsBounded (reads fd false) s b = record {
    events = b.events;
    room = b.room;
    history = b.history;
    queue = b.queue;
  }
  perform-IsBounded (takes sends) s b = take_event-IsBounded sends s b
  perform-IsBounded (trims now) s b = trim_history-IsBounded now s b

  -- Whatever the two threads do, in any order: a history and a queue that are within their limits
  -- stay within them, and the limits stay as they were.
  pub run-IsBounded :
      (actions : List Action) (s : RelayServer)
      → IsBounded max_events queue_max s
      → IsBounded max_events queue_max (run actions s)
  unfolding run
  run-IsBounded [] s b = b
  run-IsBounded (a ∷ actions) s b = run-IsBounded actions (perform a s) (perform-IsBounded a s b)
