-- ===== src/Relay/Events.antt =====
-- The decoders of the two ring buffers: `SockStateReader.decode_raw` of auto_xdp/sock_state.py and
-- `decode_event` of pkt_relay.py. `inet_ntop` for an IPv6 address is a parameter, which may raise.
pub mod SockState
use auto_xdp.Base.{
  Dict, List, Option, String, [], bool_key, decimal, drop, get_or, hex_digit, if◌then◌else◌, length,
  list_key, lookup, ltb, nat_key, none, option_key, pair_key, some, string_key, swap16, take,
  text_append, word_le, ℕ, ◌%◌, ◌/◌, ◌==◌, ◌∷◌,
}

abbrev pub sock_state_event_size : ℕ
sock_state_event_size = 16

abbrev pub pkt_event_size : ℕ
pkt_event_size = 48

abbrev af_inet : ℕ
af_inet = 2

-- the word of `n` bytes at an offset, as `unpack_from` reads it
unfoldable pub field : ℕ → ℕ → List ℕ → ℕ
field off n raw = word_le (take n (drop off raw))

abbrev pub transport_names : Dict ℕ String
transport_names = (6, "tcp") ∷ (17, "udp") ∷ (132, "sctp") ∷ []

pub record PortChange : Type 0 where
  pub ts_ns : ℕ
  pub port : ℕ
  pub proto : String
  pub action : String
  pub family : ℕ
  pub seen_at : ℕ

-- `now` is `time.time()`
unfoldable pub decode_raw : ℕ → List ℕ → Option PortChange
decode_raw now raw =
    if ltb (length raw) sock_state_event_size
    then none
    else some (record {
      ts_ns = field 0 8 raw;
      port = field 8 2 raw;
      proto = get_or (lookup (field 10 1 raw) transport_names) (decimal (field 10 1 raw));
      action = if field 11 1 raw == 1 then "open" else "close";
      family = if field 12 1 raw == af_inet then 4 else 6;
      seen_at = now;
    })

-- `if ev is not None: yield ev`
abbrev pub yield_some : Option PortChange → List PortChange → List PortChange
yield_some none rest = rest
yield_some (some ev) rest = ev ∷ rest

-- `SockStateReader.drain`
unfoldable pub decode_all : ℕ → List (List ℕ) → List PortChange
decode_all now [] = []
decode_all now (raw ∷ raws) = yield_some (decode_raw now raw) (decode_all now raws)

abbrev proto_names : Dict ℕ String
proto_names = (1, "ICMP") ∷ (6, "TCP") ∷ (17, "UDP") ∷ (58, "ICMPv6") ∷ (132, "SCTP") ∷ []

abbrev reason_names : Dict ℕ String
reason_names =
    (0, "TCP_NEW_ALLOW")
    ∷ (2, "TCP_DROP")
    ∷ (4, "UDP_DROP")
    ∷ (7, "FRAG_DROP")
    ∷ (9, "TCP_CT_MISS")
    ∷ (10, "ICMP_DROP")
    ∷ (11, "SYN_RATE_DROP")
    ∷ (12, "UDP_RATE_DROP")
    ∷ (13, "UDP_GLOBAL_RATE_DROP")
    ∷ (14, "TCP_MALFORM_NULL")
    ∷ (15, "TCP_MALFORM_XMAS")
    ∷ (16, "TCP_MALFORM_SYN_FIN")
    ∷ (17, "TCP_MALFORM_SYN_RST")
    ∷ (18, "TCP_MALFORM_RST_FIN")
    ∷ (19, "TCP_MALFORM_DOFF")
    ∷ (20, "TCP_MALFORM_PORT0")
    ∷ (21, "VLAN_DROP")
    ∷ (24, "SLOT_DROP")
    ∷ (25, "UDP_MALFORM_PORT0")
    ∷ (26, "UDP_MALFORM_LEN")
    ∷ (27, "BOGON_DROP")
    ∷ (28, "TCP_CONN_LIMIT_DROP")
    ∷ (29, "SYN_AGG_RATE_DROP")
    ∷ (30, "UDP_AGG_RATE_DROP")
    ∷ (31, "HANDLER_BLOCK_DROP")
    ∷ (32, "TCP_CONN_PREFIX_LIMIT_DROP")
    ∷ (33, "TCP_CONN_PORT_LIMIT_DROP")
    ∷ (34, "ABUSEIPDB_DROP")
    ∷ []

pub record PacketEvent : Type 0 where
  pub ts_ns : ℕ
  pub src : String
  pub dst : String
  pub sport : ℕ
  pub dport : ℕ
  pub proto : String
  pub family : ℕ
  pub verdict : String
  pub verdict_id : ℕ
  pub reason : String
  pub reason_id : ℕ

-- `socket.inet_ntoa`
unfoldable pub inet_ntoa : List ℕ → String
inet_ntoa [] = ""
inet_ntoa (b ∷ []) = decimal b
inet_ntoa (b ∷ c ∷ bytes) = text_append (decimal b) (text_append "." (inet_ntoa (c ∷ bytes)))

-- `bytes.hex()`
unfoldable pub hex : List ℕ → String
hex [] = ""
hex (b ∷ bytes) = String.◌∷◌ (hex_digit (b / 16)) (String.◌∷◌ (hex_digit (b % 16)) (hex bytes))

module _ (inet_ntop : List ℕ → Option String) where
  -- the texts of the two addresses; both are in hexadecimal where one cannot be printed
  unfoldable pub address_texts : ℕ → List ℕ → List ℕ → String × String
  address_texts family src_raw dst_raw =
      if family == af_inet
      then (inet_ntoa (take 4 src_raw), inet_ntoa (take 4 dst_raw))
      else elim (inet_ntop src_raw) [
        | none ↦ (hex src_raw, hex dst_raw)
        | some src_ip ↦ elim (inet_ntop dst_raw) [
          | none ↦ (hex src_raw, hex dst_raw)
          | some dst_ip ↦ (src_ip, dst_ip)
        ]
      ]

  unfoldable pub decode_event : List ℕ → Option PacketEvent
  decode_event raw =
      let family = field 45 1 raw in
      let (src_ip, dst_ip) = address_texts family (take 16 (drop 8 raw)) (take 16 (drop 24 raw)) in
      if ltb (length raw) pkt_event_size
      then none
      else some (record {
        ts_ns = field 0 8 raw;
        src = src_ip;
        dst = dst_ip;
        sport = swap16 (field 40 2 raw);
        dport = swap16 (field 42 2 raw);
        proto = get_or (lookup (field 44 1 raw) proto_names) (decimal (field 44 1 raw));
        family = if family == af_inet then 4 else 6;
        verdict = if field 46 1 raw == 2 then "ALLOW" else "DROP";
        verdict_id = field 46 1 raw;
        reason = get_or (lookup (field 47 1 raw) reason_names) (decimal (field 47 1 raw));
        reason_id = field 47 1 raw;
      })
