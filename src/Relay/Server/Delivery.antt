-- ===== src/Relay/Server/Delivery.antt =====
-- Every event that waits in the queue of pkt_relay.py is taken, and reaches the clients.
use auto_xdp.Base.{
  ==_iff, Bool, Bool-cases, Dict, List, [], ap, append-nil, append_assoc, arith, bool_key, contains,
  false, inl, inr, length, list_key, lookup, lookup-erase_all, map, nat_key, option_key, pair_key,
  refl, some, string_key, subst, suc, sym, take, true, zero, ℕ, ◌++◌, ◌<◌, ◌==◌, ◌∙◌, ◌∷◌, ◌≡◌,
}
use auto_xdp.Relay.Server.{
  Action, Event, Line, RelayServer, broadcast, drain_queue, event_line, perform, remember, run,
  send_all, take_event, takes,
}
use auto_xdp.Relay.Server.Streams.{taken_in}

-- `while True` of the main loop, for as many events as wait
abbrev pub takings : (ℕ → Bool) → List Event → List Action
takings sends [] = []
takings sends (ev ∷ queue) = takes sends ∷ takings sends queue

-- a client whose write succeeds is not among the dead
contains-send_all_alive :
    (sends : ℕ → Bool) (ev : Event) (clients : Dict ℕ (List Line)) (fd : ℕ)
    → sends fd ≡ true
    → contains fd (send_all sends ev clients).1 ≡ false
unfolding send_all contains
contains-send_all_alive sends ev [] fd works = refl
contains-send_all_alive sends ev ((other_fd, first) ∷ clients) fd works =
    let rest = contains-send_all_alive sends ev clients fd works in
    elim (Bool-cases (sends other_fd)) [
      | inl goes ↦ rw goes rest
      | inr broken ↦ rw broken (
          ground
            (arith, works, broken, rest, (==_iff other_fd fd).0, λ (e : other_fd ≡ fd). ap sends e))
    ]

-- and gets the line
lookup-send_all_alive :
    (sends : ℕ → Bool) (ev : Event) (clients : Dict ℕ (List Line)) (fd : ℕ) (lines : List Line)
    → sends fd ≡ true
    → lookup fd clients ≡ some lines
    → lookup fd (send_all sends ev clients).0 ≡ some (lines ++ (event_line ev ∷ []))
unfolding send_all lookup
lookup-send_all_alive sends ev [] fd lines works h = absurd (cc)
lookup-send_all_alive sends ev ((other_fd, first) ∷ clients) fd lines works h =
    let rest = lookup-send_all_alive sends ev clients fd lines works in
    elim (Bool-cases (other_fd == fd)) [
      | inl same ↦
          subst
            (λ l.
              lookup fd (send_all sends ev ((other_fd, first) ∷ clients)).0
              ≡ some (l ++ (event_line ev ∷ [])))
            {x = first} {y = lines} (ground (arith, h, same))
            (rw (ap sends ((==_iff other_fd fd).0 same) ∙ works, same) refl)
      | inr away ↦ elim (Bool-cases (sends other_fd)) [
        | inl goes ↦ rw (goes, away) (rest (ground (arith, h, away)))
        | inr broken ↦ rw (broken, away) (rest (ground (arith, h, away)))
      ]
    ]

lookup-broadcast_alive :
    (sends : ℕ → Bool) (ev : Event) (s : RelayServer) (fd : ℕ) (lines : List Line)
    → sends fd ≡ true
    → lookup fd s.clients ≡ some lines
    → lookup fd (broadcast sends ev s).clients ≡ some (lines ++ (event_line ev ∷ []))
unfolding broadcast
lookup-broadcast_alive sends ev s fd lines works h = ground (
  arith,
  lookup-erase_all fd (send_all sends ev s.clients).1 (send_all sends ev s.clients).0,
  contains-send_all_alive sends ev s.clients fd works,
  lookup-send_all_alive sends ev s.clients fd lines works h,
)

-- what the loop of the main thread leaves: nothing waits, and the client has every event
abbrev pub IsDelivered : ℕ → List Line → List Event → RelayServer → Type 0
IsDelivered fd lines events s =
    (s.queue ≡ []) × (lookup fd s.clients ≡ some (lines ++ map event_line events))

take_event_lem :
    (sends : ℕ → Bool) (ev : Event) (queue : List Event) (s : RelayServer)
    → s.queue ≡ ev ∷ queue
    → take_event sends s
      ≡ broadcast sends ev
          (record s { history = remember s.max_events ev s.history; queue = queue })
unfolding take_event
take_event_lem sends ev queue s e = rw e refl

takings_lem :
    (sends : ℕ → Bool) (fd : ℕ)
    → sends fd ≡ true
    → (queue : List Event) (s : RelayServer) (lines : List Line) → s.queue ≡ queue
    → lookup fd s.clients ≡ some lines
    → IsDelivered fd lines queue (run (takings sends queue) s)
unfolding run perform take_event broadcast
takings_lem sends fd works [] s lines e h = (e, rw append-nil h)
takings_lem sends fd works (ev ∷ queue) s lines e h =
    let next = record s { history = remember s.max_events ev s.history; queue = queue } in
    let rest =
      takings_lem sends fd works queue (broadcast sends ev next) (lines ++ (event_line ev ∷ []))
        refl (lookup-broadcast_alive sends ev next fd lines works h) in
    subst (IsDelivered fd lines (ev ∷ queue))
      (ap (run (takings sends queue)) (sym (take_event_lem sends ev queue s e)))
      (rest.0, rest.1 ∙ ap some (append_assoc lines (event_line ev ∷ []) (map event_line queue)))

taken_in-takings :
    (sends : ℕ → Bool) (queue : List Event) (s : RelayServer)
    → s.queue ≡ queue
    → taken_in (takings sends queue) s ≡ queue
unfolding taken_in perform take broadcast
taken_in-takings sends [] s e = refl
taken_in-takings sends (ev ∷ queue) s e =
    rw (take_event_lem sends ev queue s e, e)
      (ap (λ evs. ev ∷ evs) (taken_in-takings sends queue (broadcast sends ev next) refl))
  where
    next : RelayServer
    next = record s { history = remember s.max_events ev s.history; queue = queue }

-- the same as steps of the two threads
pub lookup-takings :
    (sends : ℕ → Bool) (s : RelayServer) (fd : ℕ) (lines : List Line)
    → sends fd ≡ true
    → lookup fd s.clients ≡ some lines
    → IsDelivered fd lines s.queue (run (takings sends s.queue) s)
      × (taken_in (takings sends s.queue) s ≡ s.queue)
lookup-takings sends s fd lines works h =
    (takings_lem sends fd works s.queue s lines refl h, taken_in-takings sends s.queue s refl)

-- a round of the loop takes one event
drain_round :
    (sends : ℕ → Bool) (fuel : ℕ) (ev : Event) (queue : List Event) (s : RelayServer)
    → s.queue ≡ ev ∷ queue
    → drain_queue sends (suc fuel) s ≡ drain_queue sends fuel (take_event sends s)
unfolding drain_queue
drain_round sends fuel ev queue s e = rw e refl

drain_queue-takings :
    (sends : ℕ → Bool) (fuel : ℕ) (queue : List Event) (s : RelayServer)
    → s.queue ≡ queue
    → length queue < fuel
    → drain_queue sends fuel s ≡ some (run (takings sends queue) s)
unfolding drain_queue run perform broadcast
drain_queue-takings sends zero queue s e k = absurd (omega (arith, k))
drain_queue-takings sends (suc fuel) [] s e k = rw e refl
drain_queue-takings sends (suc fuel) (ev ∷ queue) s e k =
    let next = record s { history = remember s.max_events ev s.history; queue = queue } in
    let taken = take_event_lem sends ev queue s e in
    drain_round sends fuel ev queue s e
    ∙ ap (drain_queue sends fuel) taken
    ∙ drain_queue-takings sends fuel queue (broadcast sends ev next) refl (omega (arith, k))
    ∙ ap (λ s'. some (run (takings sends queue) s')) (sym taken)

-- The loop over the queue takes every event that waits, if the reader puts no more meanwhile: for a
-- client that is connected and whose writes succeed, it ends with fuel for one round more than
-- events wait, with an empty queue, and the client has got one more line for each of the events, in
-- their order.
pub drain_queue_delivers :
    (sends : ℕ → Bool) (fuel : ℕ) (s : RelayServer) (fd : ℕ) (lines : List Line)
    → length s.queue < fuel
    → sends fd ≡ true
    → lookup fd s.clients ≡ some lines
    → (s' : RelayServer) × (drain_queue sends fuel s ≡ some s') × IsDelivered fd lines s.queue s'
drain_queue_delivers sends fuel s fd lines enough works h = (
  run (takings sends s.queue) s,
  drain_queue-takings sends fuel s.queue s refl enough,
  takings_lem sends fd works s.queue s lines refl h,
)
