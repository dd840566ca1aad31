-- ===== src/Relay/RingBuf/Layout.antt =====
-- `RingBufReader.drain` of pkt_relay.py on a ring that the kernel has filled.
use auto_xdp.Base.{
  Bool, List, [], ap, arith, bool_key, bytes_le, false, if◌then◌else◌, length, list_key, nat_key,
  not, option_key, pair_key, refl, some, string_key, suc, true, word_le, word_le-bytes_le, zero, ℕ,
  ◌%◌, ◌&&◌, ◌+◌, ◌-◌, ◌<◌, ◌==◌, ◌^◌, ◌∙◌, ◌∷◌, ◌≡◌, ◌≤◌,
}
use auto_xdp.Relay.RingBuf.{
  RingBuf, data_len, drain, drain_from, hdr_sz, header, is_busy, is_discarded, next_pos, round_up,
  slice, yielded,
}

-- a record of the ring: reserved and not committed yet, given up, or with an event
pub record Record : Type 0 where
  pub busy : Bool
  pub discarded : Bool
  pub payload : List ℕ

abbrev pub hdr_of : Record → ℕ
hdr_of r = length r.payload + (if r.busy then 2 ^ 31 else 0) + (if r.discarded then 2 ^ 30 else 0)

abbrev pub after : ℕ → Record → ℕ
after pos r = pos + (hdr_sz + round_up (length r.payload))

-- The kernel's records stand one after another from a position to another: the header in four
-- bytes, the payload eight bytes after it, the next record at a multiple of eight.
abbrev pub Laid : RingBuf → ℕ → List Record → ℕ → Type 0
Laid rb pos [] end = pos ≡ end
Laid rb pos (r ∷ rs) end =
    (length r.payload < 2 ^ 30)
    × (slice rb.area (pos % rb.max_entries) 4 ≡ bytes_le 4 (hdr_of r))
    × (slice rb.area (pos % rb.max_entries + hdr_sz) (length r.payload) ≡ r.payload)
    × Laid rb (after pos r) rs end

-- the events before the first record that is not committed
unfoldable pub delivered : ℕ → List Record → List (List ℕ)
delivered size [] = []
delivered size (r ∷ rs) =
    let rest = delivered size rs in
    if r.busy
    then []
    else if not r.discarded && length r.payload == size
    then r.payload ∷ rest
    else rest

-- the position of the first record that is not committed
unfoldable pub stopped : ℕ → List Record → ℕ
stopped pos [] = pos
stopped pos (r ∷ rs) = let rest = stopped (after pos r) rs in if r.busy then pos else rest

Laid-le : (rb : RingBuf) (pos : ℕ) (rs : List Record) (end : ℕ) → Laid rb pos rs end → pos ≤ end
Laid-le rb pos [] end h = omega arith
Laid-le rb pos (r ∷ rs) end h = omega (arith, Laid-le rb (after pos r) rs end h.3)

header-Laid :
    (rb : RingBuf) (pos : ℕ) (r : Record)
    → length r.payload < 2 ^ 30
    → slice rb.area (pos % rb.max_entries) 4 ≡ bytes_le 4 (hdr_of r)
    → header rb pos ≡ hdr_of r
unfolding header
header-Laid rb pos r small e = ap word_le e ∙ word_le-bytes_le 4 (hdr_of r) (ground arith)

header_bits :
    (busy discarded : Bool) (n : ℕ)
    → n < 2 ^ 30
    → let hdr = n + (if busy then 2 ^ 31 else 0) + (if discarded then 2 ^ 30 else 0) in
      (is_busy hdr ≡ busy) × (is_discarded hdr ≡ discarded) × (data_len hdr ≡ n)
header_bits true true n small = ground arith
header_bits true false n small = ground arith
header_bits false true n small = ground arith
header_bits false false n small = ground arith

-- what one round does at a record that the kernel has laid
round_lem :
    (rb : RingBuf) (pos : ℕ) (r : Record)
    → length r.payload < 2 ^ 30
    → slice rb.area (pos % rb.max_entries) 4 ≡ bytes_le 4 (hdr_of r)
    → slice rb.area (pos % rb.max_entries + hdr_sz) (length r.payload) ≡ r.payload
    → (is_busy (header rb pos) ≡ r.busy)
      × (next_pos rb pos ≡ after pos r)
      × (yielded rb pos
          ≡ (if not r.discarded && length r.payload == rb.event_size then r.payload ∷ [] else []))
unfolding next_pos yielded
round_lem rb pos r small head body =
    let bits = header_bits r.busy r.discarded (length r.payload) small in
    rw (header-Laid rb pos r small head)
      (bits.0, ap (λ n. pos + (hdr_sz + round_up n)) bits.2, rw (bits.1, bits.2, body) refl)

drain_from_lem :
    (fuel : ℕ) (rb : RingBuf) (pos : ℕ) (rs : List Record)
    → rb.consumer ≡ pos
    → Laid rb pos rs rb.producer
    → rb.producer - pos < fuel
    → drain_from fuel rb pos
      ≡ some (delivered rb.event_size rs, record rb { consumer = stopped pos rs })
unfolding drain_from delivered stopped
drain_from_lem zero rb pos rs c h f = absurd (omega arith)
drain_from_lem (suc fuel) rb pos [] c h f = ground (arith, c, h)
drain_from_lem (suc fuel) rb pos (r ∷ rs) c h f =
    let facts = round_lem rb pos r h.0 h.1 h.2 in
    let past = Laid-le rb (after pos r) rs rb.producer h.3 in
    let ongoing : (pos == rb.producer) ≡ false = ground arith in
    rw
      (
        ongoing,
        facts.0,
        facts.1,
        facts.2,
        drain_from_lem fuel (record rb { consumer = after pos r }) (after pos r) rs refl h.3
            (omega arith),
      )
      (ground (arith, c))

-- Where the kernel has laid records from the consumer's position to the producer's, a drain with
-- the fuel of `drain` ends. It yields the payloads of the right size of the records before the
-- first one that is not committed, in their order and without those given up, and leaves the
-- consumer at that record, or at the producer where all are committed.
pub drain-Laid :
    (rb : RingBuf) (rs : List Record)
    → Laid rb rb.consumer rs rb.producer
    → drain rb ≡ some (delivered rb.event_size rs, record rb { consumer = stopped rb.consumer rs })
unfolding drain
drain-Laid rb rs h =
    drain_from_lem (rb.producer - rb.consumer + 1) rb rb.consumer rs refl h (omega arith)
