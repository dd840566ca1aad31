-- ===== src/ProcEvents/Triggers.antt =====
-- The messages of the process connector, as the kernel lays them out, and what they trigger.
use mathlib.Core.Bool.{or_assoc}
use auto_xdp.Base.{
  Bool, Bool-cases, List, [], any, ap, arith, bool_key, bytes_le, drop, drop-append, false,
  if◌then◌else◌, inl, inr, leb, length, length-append, list_key, ltb, map, nat_key, option_key,
  pair_key, refl, string_key, subst, suc, take, true, word_le-bytes_le, zero, ℕ, ◌&&◌, ◌++◌, ◌+◌,
  ◌<◌, ◌==◌, ◌^◌, ◌||◌, ◌∙◌, ◌∷◌, ◌≡◌, ◌≤◌,
}
use auto_xdp.ProcEvents.{
  Drained, aligned, cn_idx_proc, cn_msg_hdrlen, drain_proc_events, drained, is_trigger,
  nlmsg_hdrlen, scan_messages, then_drain,
}
use auto_xdp.Relay.Events.{field}

-- a message: its netlink header, the header of its connector, the event, the bytes after that, and
-- the padding
pub record Message : Type 0 where
  pub nl_type : ℕ
  pub nl_flags : ℕ
  pub nl_seq : ℕ
  pub nl_pid : ℕ
  pub idx : ℕ
  pub val : ℕ
  pub seq : ℕ
  pub ack : ℕ
  pub len : ℕ
  pub flags : ℕ
  pub what : ℕ
  pub payload : List ℕ
  pub pad : List ℕ

abbrev pub nl_len_of : Message → ℕ
nl_len_of m = 40 + length m.payload

-- `struct cn_msg` without its data
abbrev cn_header : Message → List ℕ → List ℕ
cn_header m rest =
    bytes_le 4 m.idx
    ++ (bytes_le 4 m.val
        ++ (bytes_le 4 m.seq
            ++ (bytes_le 4 m.ack ++ (bytes_le 2 m.len ++ (bytes_le 2 m.flags ++ rest)))))

abbrev pub encode_message : Message → List ℕ
encode_message m =
    bytes_le 4 (nl_len_of m)
    ++ (bytes_le 2 m.nl_type
        ++ (bytes_le 2 m.nl_flags
            ++ (bytes_le 4 m.nl_seq
                ++ (bytes_le 4 m.nl_pid
                    ++ cn_header m (bytes_le 4 m.what ++ (m.payload ++ m.pad))))))

pub record IsMessage (m : Message) : Type 0 where
  pub nl_len : nl_len_of m < 2 ^ 32
  pub idx : m.idx < 2 ^ 32
  pub what : m.what < 2 ^ 32
  pub pad : nl_len_of m + length m.pad ≡ aligned (nl_len_of m)

abbrev pub AreMessages : List Message → Type 0
AreMessages [] = Unit
AreMessages (m ∷ ms) = IsMessage m × AreMessages ms

abbrev pub encode_all : List Message → List ℕ
encode_all [] = []
encode_all (m ∷ ms) = encode_message m ++ encode_all ms

abbrev pub message_triggers : Message → Bool
message_triggers m = m.idx == cn_idx_proc && is_trigger m.what

message_fields :
    (m : Message) (rest : List ℕ)
    → IsMessage m
    → (field 0 4 (encode_message m ++ rest) ≡ nl_len_of m)
      × (field 16 4 (encode_message m ++ rest) ≡ m.idx)
      × (field 36 4 (encode_message m ++ rest) ≡ m.what)
unfolding field take drop bytes_le
message_fields m rest h = (
  word_le-bytes_le 4 (nl_len_of m) h.nl_len,
  word_le-bytes_le 4 m.idx h.idx,
  word_le-bytes_le 4 m.what h.what,
)

length-encode_message :
    (m : Message) → length (encode_message m) ≡ 40 + (length m.payload + length m.pad)
unfolding bytes_le
length-encode_message m = omega (arith, length-append m.payload m.pad)

after_message :
    (m : Message) (rest : List ℕ)
    → IsMessage m
    → drop (aligned (nl_len_of m)) (encode_message m ++ rest) ≡ rest
after_message m rest h =
    subst (λ n. drop n (encode_message m ++ rest) ≡ rest)
      (omega (arith, h.pad, length-encode_message m)) (drop-append (encode_message m) rest)

-- the bytes suffice for every test of the loop
long_enough :
    (m : Message) (rest : List ℕ) (n : ℕ)
    → n ≤ 40
    → ltb (length (encode_message m ++ rest)) n ≡ false
long_enough m rest n h =
    let bytes : 40 ≤ length (encode_message m ++ rest) =
      omega (arith, length-append (encode_message m) rest, length-encode_message m) in
    ground (arith, bytes, h)

or_none : (b : Bool) → b ≡ (b || false)
or_none true = refl
or_none false = refl

idx_decides :
    (idx : ℕ) (triggered is_event : Bool) (f : Bool → Drained)
    → (if idx == cn_idx_proc && true then f (triggered || is_event) else f triggered)
      ≡ f (triggered || (idx == cn_idx_proc && is_event))
idx_decides idx triggered is_event f = elim (Bool-cases (idx == cn_idx_proc)) [
  | inl proc_idx ↦ rw proc_idx refl
  | inr other_idx ↦ rw other_idx (ap f (or_none triggered))
]

-- one round of the loop over a buffer
scan_message :
    (fuel : ℕ) (m : Message) (rest : List ℕ) (triggered : Bool)
    → IsMessage m
    → scan_messages (suc fuel) (encode_message m ++ rest) triggered
      ≡ scan_messages fuel rest (triggered || message_triggers m)
unfolding scan_messages
scan_message fuel m rest triggered h =
    let f = message_fields m rest h in
    rw
      (
        f.0,
        f.1,
        f.2,
        after_message m rest h,
        long_enough m rest nlmsg_hdrlen (omega arith),
        long_enough m rest (nlmsg_hdrlen + 4) (omega arith),
        long_enough m rest (nlmsg_hdrlen + cn_msg_hdrlen + 4) (omega arith),
        nl_len_enough nlmsg_hdrlen (omega arith),
        nl_len_enough (nlmsg_hdrlen + cn_msg_hdrlen) (omega arith),
        nl_len_holds,
      )
      (idx_decides m.idx triggered (is_trigger m.what) (scan_messages fuel rest))
  where
    nl_len_enough : (n : ℕ) → n ≤ 40 → ltb (nl_len_of m) n ≡ false
    nl_len_enough n k = ground (arith, k)

    nl_len_holds : leb 40 (nl_len_of m) ≡ true
    nl_len_holds = ground arith

scan_messages-encode_all :
    (ms : List Message) (fuel : ℕ) (triggered : Bool)
    → AreMessages ms
    → length ms < fuel
    → scan_messages fuel (encode_all ms) triggered ≡ drained (triggered || any message_triggers ms)
unfolding scan_messages any field take
scan_messages-encode_all [] zero triggered h k = absurd (omega (arith, k))
scan_messages-encode_all (m ∷ ms) zero triggered h k = absurd (omega (arith, k))
scan_messages-encode_all [] (suc fuel) triggered h k = ap drained (or_none triggered)
scan_messages-encode_all (m ∷ ms) (suc fuel) triggered (h, hs) k =
    scan_message fuel m (encode_all ms) triggered h
    ∙ scan_messages-encode_all ms fuel (triggered || message_triggers m) hs (omega (arith, k))
    ∙ ap drained (or_assoc triggered (message_triggers m) (any message_triggers ms))

-- a message has forty bytes at least, so the bytes are fuel enough
length-encode_all : (ms : List Message) → length ms ≤ length (encode_all ms)
length-encode_all [] = omega arith
length-encode_all (m ∷ ms) = omega (
  arith,
  length-append (encode_message m) (encode_all ms),
  length-encode_message m,
  length-encode_all ms,
)

abbrev pub AllMessages : List (List Message) → Type 0
AllMessages [] = Unit
AllMessages (ms ∷ more) = AreMessages ms × AllMessages more

-- For every sequence of buffers of well-formed messages, whatever the other fields of their headers
-- are, with an event of four bytes at least: the loops end without an exception, and the daemon is
-- told of a process event exactly if one was seen before or one of the messages is an exec or an
-- exit of the process connector, wherever it stands.
pub drain_proc_events-encode_all :
    (buffers : List (List Message)) (triggered : Bool)
    → AllMessages buffers
    → drain_proc_events (map encode_all buffers) triggered
      ≡ drained (triggered || any (any message_triggers) buffers)
unfolding drain_proc_events any
drain_proc_events-encode_all [] triggered h = ap drained (or_none triggered)
drain_proc_events-encode_all (ms ∷ buffers) triggered (h, hs) =
    ap (then_drain (drain_proc_events (map encode_all buffers))) (
      scan_messages-encode_all ms (length (encode_all ms) + 1) triggered h
        (omega (arith, length-encode_all ms)))
    ∙ drain_proc_events-encode_all buffers (triggered || any message_triggers ms) hs
    ∙ ap drained (or_assoc triggered (any message_triggers ms) (any (any message_triggers) buffers))
