-- ===== src/ProcEvents.antt =====
-- auto_xdp/proc_events.py: what the process connector of the kernel sent. The bytes of each `recv`
-- are given; the loop over them is on the bytes that are left, by which an offset beyond the end is
-- the same as none left.
pub mod Triggers
use auto_xdp.Base.{
  Bool, List, [], bool_key, drop, if◌then◌else◌, leb, length, list_key, ltb, nat_key, option_key,
  pair_key, string_key, suc, zero, ℕ, ◌&&◌, ◌*◌, ◌+◌, ◌/◌, ◌==◌, ◌||◌, ◌∷◌,
}
use auto_xdp.Relay.Events.{field}

abbrev pub nlmsg_hdrlen : ℕ
nlmsg_hdrlen = 16

abbrev pub cn_msg_hdrlen : ℕ
cn_msg_hdrlen = 20

abbrev pub cn_idx_proc : ℕ
cn_idx_proc = 1

abbrev pub proc_event_exec : ℕ
proc_event_exec = 0x00000002

abbrev pub proc_event_exit : ℕ
proc_event_exit = 0x80000000

-- `(nl_len + 3) & ~3`
abbrev pub aligned : ℕ → ℕ
aligned nl_len = (nl_len + 3) / 4 * 4

abbrev pub is_trigger : ℕ → Bool
is_trigger what = what == proc_event_exec || what == proc_event_exit

-- how the loops end: with what was triggered, by the exception of an `unpack_from` beyond the
-- bytes, or without fuel
pub data Drained : Type 0 where
  drained : Bool → Drained
  struct_error : Drained
  unfinished : Drained

-- the loop over one buffer; each round moves on by sixteen bytes at least
unfoldable pub scan_messages : ℕ → List ℕ → Bool → Drained
scan_messages zero rest triggered = unfinished
scan_messages (suc fuel) rest triggered =
    let nl_len = field 0 4 rest in
    let next = drop (aligned nl_len) rest in
    let passed = scan_messages fuel next triggered in
    let event = scan_messages fuel next (triggered || is_trigger (field 36 4 rest)) in
    if ltb (length rest) nlmsg_hdrlen
    then drained triggered
    else if ltb nl_len nlmsg_hdrlen
    then drained triggered
    else if ltb nl_len (nlmsg_hdrlen + cn_msg_hdrlen)
    then passed
    else if ltb (length rest) (nlmsg_hdrlen + 4)
    then struct_error
    else if field 16 4 rest == cn_idx_proc && leb (nlmsg_hdrlen + cn_msg_hdrlen + 4) nl_len
    then if ltb (length rest) (nlmsg_hdrlen + cn_msg_hdrlen + 4) then struct_error else event
    else passed

abbrev pub then_drain : (Bool → Drained) → Drained → Drained
then_drain k (drained triggered) = k triggered
then_drain k struct_error = struct_error
then_drain k unfinished = unfinished

-- `while True`, over the buffers that are ready before the socket is not, or fails
unfoldable pub drain_proc_events : List (List ℕ) → Bool → Drained
drain_proc_events [] triggered = drained triggered
drain_proc_events (buf ∷ bufs) triggered =
    then_drain (drain_proc_events bufs) (scan_messages (length buf + 1) buf triggered)
