-- ===== src/Examples/Relays.antt =====
-- A ring with one socket event and one record that is not committed, and a relay with two clients.
use mathlib.Core.Option
use auto_xdp.Base.{
  List, [], arith, bool_key, bytes_le, drop, erase, erase_all, false, filter, insert, list_key,
  lookup, map, nat_key, none, option_key, pair_key, refl, some, string_key, suc, true, zero, ℕ,
  ◌==◌, ◌∷◌, ◌≡◌,
}
use auto_xdp.Relay.Events.{PortChange, decode_all}
use auto_xdp.Relay.Events.SockState.{SockEvent, change_of, committed, encode, sock_state_roundtrip}
use auto_xdp.Relay.RingBuf.{RingBuf, drain, slice}
use auto_xdp.Relay.RingBuf.Layout.{Laid, delivered, drain-Laid, stopped}
use auto_xdp.Relay.Server.{
  Action, Event, Line, RelayServer, accept_client, accepts, broadcast, drain_queue, event_line,
  history_line, last_events, perform, port_change, put_all, put_nowait, read_events, remember, run,
  send_all, take_event, takes, trim, trim_history,
}
use auto_xdp.Relay.Server.Bounds.{IsBounded, run-IsBounded}
use auto_xdp.Relay.Server.Delivery.{IsDelivered, drain_queue_delivers}
use auto_xdp.Relay.Server.Streams.{IsStream, run_streams, taken_in}

abbrev byte_at : List ℕ → ℕ → ℕ
byte_at [] i = 0
byte_at (b ∷ bytes) zero = b
byte_at (b ∷ bytes) (suc i) = byte_at bytes i

abbrev ssh_opened : SockEvent
ssh_opened = record { ts_ns = 1000000; port = 22; proto = 6; action = 1; family = 2 }

-- the header says 16 bytes, and is followed by four bytes that nothing reads
abbrev sock_ring : RingBuf
sock_ring = record {
  max_entries = 64;
  event_size = 16;
  consumer = 128;
  producer = 152;
  area = byte_at (16 ∷ 0 ∷ 0 ∷ 0 ∷ 0 ∷ 0 ∷ 0 ∷ 0 ∷ encode ssh_opened);
}

sock_ring-Laid : Laid sock_ring 128 (committed ssh_opened ∷ []) 152
unfolding slice bytes_le
sock_ring-Laid = (omega arith, refl, refl, refl)

sock_state_roundtrip_example :
    Option.map {B = List PortChange × ℕ} (λ r. (decode_all 7 r.0, r.1.consumer)) (drain sock_ring)
    ≡ some (map (change_of 7) (ssh_opened ∷ []), 152)
sock_state_roundtrip_example =
    sock_state_roundtrip sock_ring 7 (ssh_opened ∷ []) refl (omega arith, tt) sock_ring-Laid

-- a reserved record stops the drain
abbrev busy_ring : RingBuf
busy_ring = record sock_ring { area = byte_at (16 ∷ 0 ∷ 0 ∷ 128 ∷ []) }

drain-Laid_example : drain busy_ring ≡ some ([], record busy_ring { consumer = 128 })
unfolding slice bytes_le delivered stopped
drain-Laid_example =
    drain-Laid busy_ring
      (record {
        busy = true;
        discarded = false;
        payload = 0 ∷ 0 ∷ 0 ∷ 0 ∷ 0 ∷ 0 ∷ 0 ∷ 0 ∷ 0 ∷ 0 ∷ 0 ∷ 0 ∷ 0 ∷ 0 ∷ 0 ∷ 0 ∷ [];
      }
        ∷ [])
      (omega arith, refl, refl, refl)

abbrev change_at : ℕ → Event
change_at now = port_change (change_of now ssh_opened)

abbrev sample_relay : RelayServer
sample_relay = record {
  retention = 300;
  max_events = 2;
  max_history_send = 1;
  queue_max = 3;
  history = [];
  clients = [];
  queue = [];
}

-- three events, a client after two of them, and a second client whose socket breaks
abbrev sample_actions : List Action
sample_actions =
    read_events (change_at 10 ∷ change_at 11 ∷ change_at 12 ∷ change_at 13 ∷ [])
    ∷ takes (λ fd. true)
    ∷ takes (λ fd. true)
    ∷ accepts 12 5 true true
    ∷ accepts 12 6 true true
    ∷ takes (λ fd. fd == 5)
    ∷ []

abbrev sample_lines : List Line
sample_lines = history_line (change_at 11 ∷ []) ∷ event_line (change_at 12) ∷ []

client_five : lookup 5 (run sample_actions sample_relay).clients ≡ some sample_lines
unfolding run perform put_all put_nowait take_event remember drop broadcast send_all erase_all erase
    lookup accept_client trim_history trim last_events insert filter
client_five = refl

client_six : lookup 6 (run sample_actions sample_relay).clients ≡ none
unfolding run perform put_all put_nowait take_event remember drop broadcast send_all erase_all erase
    lookup accept_client trim_history trim last_events insert filter
client_six = refl

run_streams_example : IsStream (taken_in sample_actions sample_relay) sample_lines
run_streams_example = run_streams sample_actions sample_relay 5 sample_lines refl refl client_five

run-IsBounded_example : IsBounded 2 3 (run sample_actions sample_relay)
run-IsBounded_example =
    run-IsBounded 2 3 sample_actions sample_relay
      (record { events = refl; room = refl; history = omega arith; queue = omega arith })

abbrev waiting_relay : RelayServer
waiting_relay = record sample_relay {
  clients = (6, []) ∷ (5, history_line [] ∷ []) ∷ [];
  queue = change_at 10 ∷ change_at 11 ∷ [];
}

client_waits : lookup 5 waiting_relay.clients ≡ some (history_line [] ∷ [])
unfolding lookup
client_waits = refl

drain_queue_delivers_example :
    (s' : RelayServer) × (drain_queue (λ fd. fd == 5) 9 waiting_relay ≡ some s')
    × IsDelivered 5 (history_line [] ∷ []) waiting_relay.queue s'
drain_queue_delivers_example =
    drain_queue_delivers (λ fd. fd == 5) 9 waiting_relay 5 (history_line [] ∷ []) (omega arith) refl
      client_waits
