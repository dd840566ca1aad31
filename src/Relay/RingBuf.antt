-- ===== src/Relay/RingBuf.antt =====
-- `RingBufReader` of pkt_relay.py. The mapped data area is the byte at each offset; it is mapped
-- twice, so a record that passes the end of the ring is read on in one piece. `max_entries` is a
-- power of two, so `& self._mask` is the remainder. Positions stay below 2 ^ 64.
pub mod Layout
use mathlib.Core.Option
use auto_xdp.Base.{
  Bool, List, Option, [], bool_key, if◌then◌else◌, list_key, nat_key, none, not, option_key,
  pair_key, some, string_key, suc, word_le, zero, ℕ, ◌%◌, ◌&&◌, ◌*◌, ◌++◌, ◌+◌, ◌-◌, ◌/◌, ◌==◌, ◌^◌,
  ◌∷◌,
}

abbrev busy_bit : ℕ
busy_bit = 2 ^ 31

abbrev discard_bit : ℕ
discard_bit = 2 ^ 30

abbrev pub hdr_sz : ℕ
hdr_sz = 8

-- the bits of a number of 32 bits
abbrev pub is_busy : ℕ → Bool
is_busy hdr = hdr / busy_bit % 2 == 1

abbrev pub is_discarded : ℕ → Bool
is_discarded hdr = hdr / discard_bit % 2 == 1

-- `hdr & ~(_BUSY_BIT | _DISCARD_BIT)`
abbrev pub data_len : ℕ → ℕ
data_len hdr = hdr % discard_bit

-- `(data_len + 7) & ~7`
abbrev pub round_up : ℕ → ℕ
round_up n = (n + 7) / 8 * 8

pub record RingBuf : Type 0 where
  pub max_entries : ℕ
  pub event_size : ℕ
  pub consumer : ℕ
  pub producer : ℕ
  pub area : ℕ → ℕ

-- the bytes from an offset
unfoldable pub slice : (ℕ → ℕ) → ℕ → ℕ → List ℕ
slice area off zero = []
slice area off (suc n) = area off ∷ slice area (off + 1) n

-- the header of the record at a position
unfoldable pub header : RingBuf → ℕ → ℕ
header rb cpos = word_le (slice rb.area (cpos % rb.max_entries) 4)

-- what one round yields
unfoldable pub yielded : RingBuf → ℕ → List (List ℕ)
yielded rb cpos =
    let hdr = header rb cpos in
    if not (is_discarded hdr) && data_len hdr == rb.event_size
    then slice rb.area (cpos % rb.max_entries + hdr_sz) (data_len hdr) ∷ []
    else []

unfoldable pub next_pos : RingBuf → ℕ → ℕ
next_pos rb cpos = cpos + (hdr_sz + round_up (data_len (header rb cpos)))

-- `while cpos != ppos`; `none` says that the fuel ran out
unfoldable pub drain_from : ℕ → RingBuf → ℕ → Option (List (List ℕ) × RingBuf)
drain_from zero rb cpos = none
drain_from (suc fuel) rb cpos =
    let rest = drain_from fuel (record rb { consumer = next_pos rb cpos }) (next_pos rb cpos) in
    if cpos == rb.producer
    then some ([], rb)
    else if is_busy (header rb cpos)
    then some ([], rb)
    else Option.map (λ r. (yielded rb cpos ++ r.0, r.1)) rest

-- each round moves on by eight bytes at least
unfoldable pub drain : RingBuf → Option (List (List ℕ) × RingBuf)
drain rb = drain_from (rb.producer - rb.consumer + 1) rb rb.consumer
