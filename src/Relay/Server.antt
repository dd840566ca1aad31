-- ===== src/Relay/Server.antt =====
-- `RelayServer` of pkt_relay.py: the history, the queue between the two threads, and the clients.
-- Times are numbers of one unit. Whether a write to a socket succeeds is an argument; a client is
-- the lines that were written to it. JSON stands for itself.
pub mod Streams
pub mod Bounds
pub mod Delivery
use auto_xdp.Base.{
  Bool, Dict, List, Option, [], bool_key, drop, erase, erase_all, if◌then◌else◌, insert, length,
  list_key, ltb, nat_key, none, not, option_key, pair_key, some, string_key, suc, zero, ℕ, ◌++◌,
  ◌-◌, ◌==◌, ◌∷◌,
}
use auto_xdp.Relay.Events.{PacketEvent, PortChange}

-- a decoded event with the time at which it was seen
pub data Event : Type 0 where
  packet : PacketEvent → ℕ → Event
  port_change : PortChange → Event

abbrev pub seen_at : Event → ℕ
seen_at (packet ev now) = now
seen_at (port_change ev) = ev.seen_at

-- the two kinds of line of the protocol; a port change has its own type already
pub data Line : Type 0 where
  history_line : List Event → Line
  event_line : Event → Line

pub record RelayServer : Type 0 where
  pub retention : ℕ
  pub max_events : ℕ
  pub max_history_send : ℕ
  pub queue_max : ℕ
  pub history : List Event
  pub clients : Dict ℕ (List Line)
  pub queue : List Event

-- `deque(maxlen=max_events).append`
unfoldable pub remember : ℕ → Event → List Event → List Event
remember max_events ev history =
    let longer = history ++ (ev ∷ []) in drop (length longer - max_events) longer

unfoldable pub trim : ℕ → List Event → List Event
trim cutoff [] = []
trim cutoff (ev ∷ history) =
    let rest = trim cutoff history in if ltb (seen_at ev) cutoff then rest else ev ∷ history

unfoldable pub trim_history : ℕ → RelayServer → RelayServer
trim_history now s = record s { history = trim (now - s.retention) s.history }

-- `list(history)[-n:]`, which is the whole list for 0
unfoldable pub last_events : ℕ → List Event → List Event
last_events n history = if n == 0 then history else drop (length history - n) history

-- `put_nowait` of one event, where `queue.Full` drops it
unfoldable pub put_nowait : Event → RelayServer → RelayServer
put_nowait ev s =
    if ltb (length s.queue) s.queue_max then record s { queue = s.queue ++ (ev ∷ []) } else s

unfoldable pub put_all : List Event → RelayServer → RelayServer
put_all [] s = s
put_all (ev ∷ evs) s = put_all evs (put_nowait ev s)

unfoldable pub drop_client : ℕ → RelayServer → RelayServer
drop_client fd s = record s { clients = erase fd s.clients }

-- `_accept_client` once a connection was accepted; `sends` says whether the history was written
unfoldable pub accept_client : ℕ → ℕ → Bool → Bool → RelayServer → RelayServer
accept_client now fd authorized sends s =
    let s' = trim_history now s in
    let line = history_line (last_events s.max_history_send s'.history) in
    if not authorized
    then s
    else if not sends
    then s'
    else record s' { clients = insert fd (line ∷ []) s.clients }

-- the loop of `_broadcast` over the clients, with those that are dead
unfoldable pub send_all : (ℕ → Bool) → Event → Dict ℕ (List Line) → Dict ℕ (List Line) × List ℕ
send_all sends ev [] = ([], [])
send_all sends ev ((fd, lines) ∷ clients) =
    let (written, dead) = send_all sends ev clients in
    if sends fd
    then ((fd, lines ++ (event_line ev ∷ [])) ∷ written, dead)
    else ((fd, lines) ∷ written, fd ∷ dead)

unfoldable pub broadcast : (ℕ → Bool) → Event → RelayServer → RelayServer
broadcast sends ev s =
    let (written, dead) = send_all sends ev s.clients in
    record s { clients = erase_all dead written }

-- one round of `while True: ev = self._queue.get_nowait()`
unfoldable pub take_event : (ℕ → Bool) → RelayServer → RelayServer
take_event sends s = elim s.queue [
  | [] ↦ s
  | ev ∷ queue ↦
      broadcast sends ev (record s { history = remember s.max_events ev s.history; queue = queue })
]

-- `while True` over the queue, while the reader puts nothing; `none` is for a loop without fuel
unfoldable pub drain_queue : (ℕ → Bool) → ℕ → RelayServer → Option RelayServer
drain_queue sends zero s = none
drain_queue sends (suc fuel) s =
    let rest = drain_queue sends fuel (take_event sends s) in
    elim s.queue [ [] ↦ some s | ev ∷ queue ↦ rest ]

-- What the two threads do, one after another in any order: the reader puts the events of a drain,
-- the main loop accepts a client, reads from one that has hung up or not, takes an event, and
-- trims the history.
pub data Action : Type 0 where
  read_events : List Event → Action
  accepts : ℕ → ℕ → Bool → Bool → Action
  reads : ℕ → Bool → Action
  takes : (ℕ → Bool) → Action
  trims : ℕ → Action

unfoldable pub perform : Action → RelayServer → RelayServer
perform (read_events evs) s = put_all evs s
perform (accepts now fd authorized sends) s = accept_client now fd authorized sends s
perform (reads fd open_still) s = if open_still then s else drop_client fd s
perform (takes sends) s = take_event sends s
perform (trims now) s = trim_history now s

unfoldable pub run : List Action → RelayServer → RelayServer
run [] s = s
run (a ∷ actions) s = run actions (perform a s)
