-- ===== src/Relay/Events/SockState.antt =====
-- From the kernel's `struct sock_state_event` of bpf/sock_state_track.c to the events of
-- auto_xdp/sock_state.py, through the ring of pkt_relay.py.
use mathlib.Core.Option
use auto_xdp.Base.{
  List, [], ap, bool_key, bytes_le, decimal, drop, false, get_or, if◌then◌else◌, list_key, lookup,
  map, nat_key, option_key, pair_key, refl, some, string_key, take, word_le-bytes_le, ℕ, ◌++◌, ◌<◌,
  ◌==◌, ◌^◌, ◌∙◌, ◌∷◌, ◌≡◌,
}
use auto_xdp.Relay.Events.{
  PortChange, decode_all, decode_raw, field, sock_state_event_size, transport_names, yield_some,
}
use auto_xdp.Relay.RingBuf.{RingBuf, drain}
use auto_xdp.Relay.RingBuf.Layout.{Laid, Record, after, delivered, drain-Laid, stopped}

-- the struct, and the ranges of its fields
pub record SockEvent : Type 0 where
  pub ts_ns : ℕ
  pub port : ℕ
  pub proto : ℕ
  pub action : ℕ
  pub family : ℕ

pub record IsPacked (e : SockEvent) : Type 0 where
  pub ts_ns : e.ts_ns < 2 ^ 64
  pub port : e.port < 2 ^ 16
  pub proto : e.proto < 2 ^ 8
  pub action : e.action < 2 ^ 8
  pub family : e.family < 2 ^ 8

-- its bytes, little-endian and with three bytes of padding
abbrev pub encode : SockEvent → List ℕ
encode e =
    bytes_le 8 e.ts_ns
    ++ (bytes_le 2 e.port
        ++ (bytes_le 1 e.proto ++ (bytes_le 1 e.action ++ (bytes_le 1 e.family ++ 0 ∷ 0 ∷ 0 ∷ []))))

-- what the daemon says of a struct
abbrev pub change_of : ℕ → SockEvent → PortChange
change_of now e = record {
  ts_ns = e.ts_ns;
  port = e.port;
  proto = get_or (lookup e.proto transport_names) (decimal e.proto);
  action = if e.action == 1 then "open" else "close";
  family = if e.family == 2 then 4 else 6;
  seen_at = now;
}

field_of :
    (e : SockEvent)
    → IsPacked e
    → (field 0 8 (encode e) ≡ e.ts_ns)
      × (field 8 2 (encode e) ≡ e.port)
      × (field 10 1 (encode e) ≡ e.proto)
      × (field 11 1 (encode e) ≡ e.action)
      × (field 12 1 (encode e) ≡ e.family)
unfolding field take drop bytes_le
field_of e h = (
  word_le-bytes_le 8 e.ts_ns h.ts_ns,
  word_le-bytes_le 2 e.port h.port,
  word_le-bytes_le 1 e.proto h.proto,
  word_le-bytes_le 1 e.action h.action,
  word_le-bytes_le 1 e.family h.family,
)

decode_raw-encode :
    (now : ℕ) (e : SockEvent) → IsPacked e → decode_raw now (encode e) ≡ some (change_of now e)
unfolding decode_raw bytes_le
decode_raw-encode now e h = let f = field_of e h in rw (f.0, f.1, f.2, f.3, f.4) refl

abbrev pub committed : SockEvent → Record
committed e = record { busy = false; discarded = false; payload = encode e }

abbrev pub ArePacked : List SockEvent → Type 0
ArePacked [] = Unit
ArePacked (e ∷ es) = IsPacked e × ArePacked es

decode_all-delivered :
    (now : ℕ) (es : List SockEvent)
    → ArePacked es
    → decode_all now (delivered sock_state_event_size (map committed es)) ≡ map (change_of now) es
unfolding decode_all delivered bytes_le
decode_all-delivered now [] h = refl
decode_all-delivered now (e ∷ es) h =
    ap (λ o. yield_some o (decode_all now (delivered sock_state_event_size (map committed es))))
      (decode_raw-encode now e h.0)
    ∙ ap (λ l. change_of now e ∷ l) (decode_all-delivered now es h.1)

stopped-committed :
    (rb : RingBuf) (pos : ℕ) (es : List SockEvent) (end : ℕ)
    → Laid rb pos (map committed es) end
    → stopped pos (map committed es) ≡ end
unfolding stopped bytes_le
stopped-committed rb pos [] end h = h
stopped-committed rb pos (e ∷ es) end h = stopped-committed rb (after pos (committed e)) es end h.3

-- Every list of socket events whose fields fit their widths, that the kernel has committed to the
-- ring of `sock_state_rb` one after another as the bytes of the C struct, is read back by a drain
-- and the decoder: each event once, in the same order, with its time, port, protocol name, action
-- and address family, and the ring is empty afterwards.
pub sock_state_roundtrip :
    (rb : RingBuf) (now : ℕ) (es : List SockEvent)
    → rb.event_size ≡ sock_state_event_size
    → ArePacked es
    → Laid rb rb.consumer (map committed es) rb.producer
    → Option.map {B = List PortChange × ℕ} (λ r. (decode_all now r.0, r.1.consumer)) (drain rb)
      ≡ some (map (change_of now) es, rb.producer)
sock_state_roundtrip rb now es size packed laid =
    rw
      (
        drain-Laid rb (map committed es) laid,
        size,
        decode_all-delivered now es packed,
        stopped-committed rb rb.consumer es rb.producer laid,
      )
      refl
