-- ===== src/Relay/Server/Streams.antt =====
-- What a client of pkt_relay.py gets: the recent history and everything after it, without a gap.
use mathlib.Core.List.{map-append}
use auto_xdp.Base.{
  Bool, Bool-cases, Dict, List, [], ap, append-nil, append-take-drop, append_assoc, arith, bool_key,
  contains, drop, false, inl, inr, length, list_key, lookup, lookup-erase, lookup-erase_all,
  lookup-insert, ltb, map, nat_key, none, option_key, pair_key, refl, some, string_key, subst, sym,
  take, true, ℕ, ◌++◌, ◌-◌, ◌==◌, ◌∙◌, ◌∷◌, ◌≡◌, ◌⊎◌,
}
use auto_xdp.Relay.Server.{
  Action, Event, Line, RelayServer, accept_client, accepts, broadcast, drop_client, event_line,
  history_line, last_events, perform, put_all, put_nowait, read_events, reads, remember, run,
  seen_at, send_all, take_event, takes, trim, trim_history, trims,
}

-- the second list is what is left of the first after its oldest entries
abbrev IsRecent : List Event → List Event → Type 0
IsRecent history log = (older : List Event) × (log ≡ older ++ history)

-- The lines of one client: a history and then live events, which together are the end of all the
-- events that the daemon took.
abbrev pub IsStream : List Event → List Line → Type 0
IsStream log lines =
    (older : List Event) × (sent : List Event) × (live : List Event) × (log
      ≡ older ++ (sent ++ live))
    × (lines ≡ history_line sent ∷ map event_line live)

-- `log` is all that was taken from the queue, oldest first
pub record IsGapless (log : List Event) (s : RelayServer) : Type 0 where
  pub recent : IsRecent s.history log
  pub streams : (fd : ℕ) (lines : List Line) → lookup fd s.clients ≡ some lines → IsStream log lines

IsRecent-drop :
    (n : ℕ) (history log : List Event) → IsRecent history log → IsRecent (drop n history) log
IsRecent-drop n history log (older, e) = (
  older ++ take n history,
  e
      ∙ ap (λ h. older ++ h) (sym (append-take-drop n history))
      ∙ sym (append_assoc older (take n history) (drop n history)),
)

IsRecent-trim :
    (cutoff : ℕ) (history log : List Event)
    → IsRecent history log
    → IsRecent (trim cutoff history) log
unfolding trim
IsRecent-trim cutoff [] log r = r
IsRecent-trim cutoff (ev ∷ history) log (older, e) = elim (Bool-cases (ltb (seen_at ev) cutoff)) [
  | inl old ↦ rw old (
      IsRecent-trim cutoff history log
        (older ++ (ev ∷ []), e ∙ sym (append_assoc older (ev ∷ []) history)))
  | inr young ↦ rw young (older, e)
]

IsRecent-last_events :
    (n : ℕ) (history log : List Event) → IsRecent history log → IsRecent (last_events n history) log
unfolding last_events
IsRecent-last_events n history log r = elim (Bool-cases (n == 0)) [
  | inl all ↦ rw all r
  | inr some_of ↦ rw some_of (IsRecent-drop (length history - n) history log r)
]

IsRecent-remember :
    (max_events : ℕ) (ev : Event) (history log : List Event)
    → IsRecent history log
    → IsRecent (remember max_events ev history) (log ++ (ev ∷ []))
unfolding remember
IsRecent-remember max_events ev history log (older, e) =
    IsRecent-drop (length (history ++ (ev ∷ [])) - max_events) (history ++ (ev ∷ []))
      (log ++ (ev ∷ [])) (older, ap (λ l. l ++ (ev ∷ [])) e ∙ append_assoc older history (ev ∷ []))

IsStream-next :
    (ev : Event) (log : List Event) (lines : List Line)
    → IsStream log lines
    → IsStream (log ++ (ev ∷ [])) (lines ++ (event_line ev ∷ []))
IsStream-next ev log lines (older, sent, live, e, f) = (
  older,
  sent,
  live ++ (ev ∷ []),
  rw (e, append_assoc older (sent ++ live) (ev ∷ []), append_assoc sent live (ev ∷ [])) refl,
  rw (f, map-append event_line live (ev ∷ [])) refl,
)

lookup-send_all :
    (sends : ℕ → Bool) (ev : Event) (clients : Dict ℕ (List Line)) (fd : ℕ) (lines : List Line)
    → lookup fd (send_all sends ev clients).0 ≡ some lines
    → contains fd (send_all sends ev clients).1 ≡ false
    → (before : List Line) × (lookup fd clients ≡ some before)
      × (lines ≡ before ++ (event_line ev ∷ []))
unfolding send_all lookup contains
lookup-send_all sends ev [] fd lines h alive = absurd (cc)
lookup-send_all sends ev ((other_fd, first) ∷ clients) fd lines h alive =
    elim (Bool-cases (other_fd == fd)) [
      | inl same ↦ elim (Bool-cases (sends other_fd)) [
        | inl written ↦ (first, rw same refl, ground (arith, h, same, written))
        | inr broken ↦ absurd (ground (arith, alive, same, broken))
      ]
      | inr away ↦ rw away (
          lookup-send_all sends ev clients fd lines (ground (arith, h, away))
            (ground (arith, alive, away)))
    ]

module _ (log : List Event) where
  trim_history-IsGapless :
      (now : ℕ) (s : RelayServer) → IsGapless log s → IsGapless log (trim_history now s)
  unfolding trim_history
  trim_history-IsGapless now s g = record {
    recent = IsRecent-trim (now - s.retention) s.history log g.recent;
    streams = g.streams;
  }

  drop_client-IsGapless :
      (fd : ℕ) (s : RelayServer) → IsGapless log s → IsGapless log (drop_client fd s)
  unfolding drop_client
  drop_client-IsGapless fd s g = record {
    recent = g.recent;
    streams = λ other_fd lines h.
        g.streams other_fd lines (ground (arith, h, lookup-erase other_fd fd s.clients));
  }

  accept_client-IsGapless :
      (now fd : ℕ) (authorized sends : Bool) (s : RelayServer)
      → IsGapless log s
      → IsGapless log (accept_client now fd authorized sends s)
  unfolding accept_client trim_history
  accept_client-IsGapless now fd false sends s g = g
  accept_client-IsGapless now fd true false s g = trim_history-IsGapless now s g
  accept_client-IsGapless now fd true true s g = record {
    recent = trimmed.recent;
    streams = λ other_fd lines h. elim (Bool-cases (fd == other_fd)) [
      | inl same ↦
          let (older, e) =
            IsRecent-last_events s.max_history_send (trim_history now s).history log
              trimmed.recent in
          (
            older,
            last_events s.max_history_send (trim_history now s).history,
            [],
            e
                ∙ ap (λ l. older ++ l)
                    (sym
                      (append-nil (last_events s.max_history_send (trim_history now s).history))),
            ground (
              arith,
              h,
              same,
              lookup-insert other_fd fd
                  (history_line (last_events s.max_history_send (trim_history now s).history) ∷ [])
                  s.clients,
            ),
          )
      | inr away ↦ trimmed.streams other_fd lines (
          ground (
            arith,
            h,
            away,
            lookup-insert other_fd fd
                (history_line (last_events s.max_history_send (trim_history now s).history) ∷ [])
                s.clients,
          ))
    ];
  }
    where
      trimmed : IsGapless log (trim_history now s)
      trimmed = trim_history-IsGapless now s g

  put_all-IsGapless :
      (evs : List Event) (s : RelayServer) → IsGapless log s → IsGapless log (put_all evs s)
  unfolding put_all put_nowait
  put_all-IsGapless [] s g = g
  put_all-IsGapless (ev ∷ evs) s g =
      put_all-IsGapless evs (put_nowait ev s)
        (put_lem (Bool-cases (ltb (length s.queue) s.queue_max)))
    where
      put_lem :
          (ltb (length s.queue) s.queue_max ≡ true) ⊎ (ltb (length s.queue) s.queue_max ≡ false)
          → IsGapless log (put_nowait ev s)
      put_lem (inl room) = rw room (record { recent = g.recent; streams = g.streams })
      put_lem (inr full) = rw full g

-- the event that an action takes from the queue
abbrev pub taken : Action → RelayServer → List Event
taken (takes sends) s = take 1 s.queue
taken (read_events evs) s = []
taken (accepts now fd authorized sends) s = []
taken (reads fd open_still) s = []
taken (trims now) s = []

-- all the events that a run takes, oldest first
unfoldable pub taken_in : List Action → RelayServer → List Event
taken_in [] s = []
taken_in (a ∷ actions) s = taken a s ++ taken_in actions (perform a s)

broadcast_streams :
    (sends : ℕ → Bool) (ev : Event) (log : List Event) (s : RelayServer)
    → ((fd : ℕ) (lines : List Line) → lookup fd s.clients ≡ some lines → IsStream log lines)
    → (fd : ℕ) (lines : List Line) → lookup fd (broadcast sends ev s).clients ≡ some lines
    → IsStream (log ++ (ev ∷ [])) lines
unfolding broadcast
broadcast_streams sends ev log s g fd lines h = elim (Bool-cases (contains fd sent.1)) [
  | inl dead ↦ absurd (ground (arith, h, dead, lookup-erase_all fd sent.1 sent.0))
  | inr alive ↦
      let (before, held, e) =
        lookup-send_all sends ev s.clients fd lines
          (ground (arith, h, alive, lookup-erase_all fd sent.1 sent.0)) alive in
      subst (IsStream (log ++ (ev ∷ []))) (sym e) (IsStream-next ev log before (g fd before held))
]
  where
    sent : Dict ℕ (List Line) × List ℕ
    sent = send_all sends ev s.clients

take_event-IsGapless :
    (sends : ℕ → Bool) (log : List Event) (s : RelayServer)
    → IsGapless log s
    → IsGapless (log ++ take 1 s.queue) (take_event sends s)
unfolding take_event take broadcast remember
take_event-IsGapless sends log s g = go s.queue
  where
    go :
        (queue : List Event)
        → IsGapless (log ++ take 1 queue) (take_event sends (record s { queue = queue }))
    go [] = rw append-nil (record { recent = g.recent; streams = g.streams })
    go (ev ∷ queue) = record {
      recent = IsRecent-remember s.max_events ev s.history log g.recent;
      streams =
          broadcast_streams sends ev log
            (record s { history = remember s.max_events ev s.history; queue = queue }) g.streams;
    }

perform-IsGapless :
    (a : Action) (log : List Event) (s : RelayServer)
    → IsGapless log s
    → IsGapless (log ++ taken a s) (perform a s)
unfolding perform
perform-IsGapless (read_events evs) log s g = rw append-nil (put_all-IsGapless log evs s g)
perform-IsGapless (accepts now fd authorized sends) log s g =
    rw append-nil (accept_client-IsGapless log now fd authorized sends s g)
perform-IsGapless (reads fd true) log s g = rw append-nil g
perform-IsGapless (reads fd false) log s g = rw append-nil (drop_client-IsGapless log fd s g)
perform-IsGapless (takes sends) log s g = take_event-IsGapless sends log s g
perform-IsGapless (trims now) log s g = rw append-nil (trim_history-IsGapless log now s g)

run-IsGapless :
    (actions : List Action) (log : List Event) (s : RelayServer)
    → IsGapless log s
    → IsGapless (log ++ taken_in actions s) (run actions s)
unfolding run taken_in
run-IsGapless [] log s g = rw append-nil g
run-IsGapless (a ∷ actions) log s g =
    rw (← append_assoc log (taken a s) (taken_in actions (perform a s)))
      (run-IsGapless actions (log ++ taken a s) (perform a s) (perform-IsGapless a log s g))

lookup-empty : (fd : ℕ) (clients : Dict ℕ (List Line)) → clients ≡ [] → lookup fd clients ≡ none
unfolding lookup
lookup-empty fd clients e = rw e refl

-- Whatever the two threads do, in any order, and whichever writes fail: from a start with no
-- history and no client, every client that is connected has got one history line and then one
-- line for each later event, and the two together are the last part of all the events that were
-- taken from the queue, in their order, with none left out and none twice.
pub run_streams :
    (actions : List Action) (s : RelayServer) (fd : ℕ) (lines : List Line)
    → s.history ≡ []
    → s.clients ≡ []
    → lookup fd (run actions s).clients ≡ some lines
    → IsStream (taken_in actions s) lines
run_streams actions s fd lines no_history no_clients h =
    (run-IsGapless actions [] s
        (record { recent = ([], sym no_history); streams = none_yet })).streams
      fd lines h
  where
    none_yet : (fd : ℕ) (lines : List Line) → lookup fd s.clients ≡ some lines → IsStream [] lines
    none_yet fd lines held = absurd (ground (arith, held, lookup-empty fd s.clients no_clients))
