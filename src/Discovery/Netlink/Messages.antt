-- ===== src/Discovery/Netlink/Messages.antt =====
-- `_nldiag_dump` of auto_xdp/discovery.py: what each `recv_into` of the dump's socket gave, as the
-- bytes or, for an OSError, `none`. A `recv_into` without bytes ends the list. The loop over the
-- messages is on the bytes that are left.
pub mod Layout
pub mod Replies
use mathlib.Core.Option
use auto_xdp.Base.{
  List, Option, [], bool_key, drop, if◌then◌else◌, leb, length, list_key, ltb, nat_key, none, not,
  option_key, pair_key, some, string_key, suc, swap16, take, zero, ℕ, ◌&&◌, ◌++◌, ◌+◌, ◌==◌, ◌||◌,
  ◌∷◌,
}
use auto_xdp.Discovery.Netlink.{Diag, Dump, End, complete, dump_error, os_error}
use auto_xdp.ProcEvents.{aligned}
use auto_xdp.Relay.Events.{field}
use auto_xdp.State.{Bytes}

abbrev pub sock_diag_by_family : ℕ
sock_diag_by_family = 20

abbrev pub nlmsg_done : ℕ
nlmsg_done = 3

abbrev pub nlmsg_error : ℕ
nlmsg_error = 2

abbrev pub nlmsghdr_sz : ℕ
nlmsghdr_sz = 16

abbrev pub diag_msg_sz : ℕ
diag_msg_sz = 72

-- the socket of the message that the bytes begin with
abbrev pub socket_of : Bytes → Diag
socket_of rest = record {
  sport = swap16 (field 20 2 rest);
  dport = swap16 (field 22 2 rest);
  src = take 16 (drop 24 rest);
  dst = take 16 (drop 40 rest);
  inode = field 84 4 rest;
  rqueue = field 72 4 rest;
}

-- how the loop over one buffer ends: at the end of the bytes, at NLMSG_DONE, by a DiscoveryError, or
-- without fuel
pub data BufferEnd : Type 0 where
  exhausted : BufferEnd
  done : BufferEnd
  invalid : BufferEnd
  unfinished : BufferEnd

pub record Scan : Type 0 where
  pub sockets : List Diag
  pub ends : BufferEnd

abbrev pub nothing_more : BufferEnd → Scan
nothing_more e = record { sockets = []; ends = e }

abbrev pub yielding : Diag → Scan → Scan
yielding d s = record { sockets = d ∷ s.sockets; ends = s.ends }

-- `while offset + _NLMSGHDR_SZ <= n`; each round moves on by sixteen bytes at least. An offset that
-- the padding moves beyond the end is not the end.
unfoldable pub scan_buffer : ℕ → Bytes → Scan
scan_buffer zero rest = nothing_more unfinished
scan_buffer (suc fuel) rest =
    let msg_len = field 0 4 rest in
    let msg_type = field 4 2 rest in
    let next = scan_buffer fuel (drop (aligned msg_len) rest) in
    let moved = if ltb (length rest) (aligned msg_len) then nothing_more invalid else next in
    if ltb (length rest) nlmsghdr_sz
    then nothing_more (if length rest == 0 then exhausted else invalid)
    else if ltb msg_len nlmsghdr_sz
    then nothing_more invalid
    else if ltb (length rest) msg_len
    then nothing_more invalid
    else if msg_type == nlmsg_done
    then nothing_more done
    else if msg_type == nlmsg_error && (ltb msg_len (nlmsghdr_sz + 4) || not (field 16 4 rest == 0))
    then nothing_more invalid
    else if msg_type == sock_diag_by_family && leb (nlmsghdr_sz + diag_msg_sz) (length rest)
    then yielding (socket_of rest) moved
    else moved

abbrev pub yielding_all : List Diag → Dump → Dump
yielding_all ds rest = record { sockets = ds ++ rest.sockets; ends = rest.ends }

abbrev pub ending : List Diag → End → Option Dump
ending ds e = some (record { sockets = ds; ends = e })

-- what follows a buffer, with the dump that the next ones give
abbrev pub then_recv : List Diag → BufferEnd → Option Dump → Option Dump
then_recv ds exhausted more = Option.map (yielding_all ds) more
then_recv ds done more = ending ds complete
then_recv ds invalid more = ending ds dump_error
then_recv ds unfinished more = none

unfoldable pub nldiag_dump : List (Option Bytes) → Option Dump
nldiag_dump [] = ending [] dump_error
nldiag_dump (none ∷ received) = ending [] os_error
nldiag_dump (some buf ∷ received) =
    let s = scan_buffer (length buf + 1) buf in
    if length buf == 0
    then ending [] dump_error
    else then_recv s.sockets s.ends (nldiag_dump received)
