-- ===== src/Discovery/Netlink/Messages/Replies.antt =====
-- The dumps of SOCK_DIAG, and what `_nldiag_dump` reads of them.
use mathlib.Core.List.{map-append}
use auto_xdp.Base.{
  List, Option, [], ap, arith, bool_key, false, length, length-append, list_key, ltb, map, nat_key,
  none, option_key, pair_key, refl, some, string_key, suc, sym, zero, ℕ, ◌++◌, ◌+◌, ◌<◌, ◌==◌, ◌∙◌,
  ◌∷◌, ◌≡◌, ◌≤◌,
}
use auto_xdp.Discovery.Netlink.{End, complete, dump_error, os_error}
use auto_xdp.Discovery.Netlink.Messages.{
  BufferEnd, done, ending, exhausted, nldiag_dump, nlmsghdr_sz, nothing_more, scan_buffer,
  then_recv, yielding,
}
use auto_xdp.Discovery.Netlink.Messages.Layout.{
  AreSockets, Done, IsSocketMessage, SocketMessage, after_socket, decoded, done_bytes, done_fields,
  done_length, done_message, encode_socket, length-encode_socket, long_enough, msg_len_of,
  socket_fields, socket_of-encode_socket, whole_socket,
}
use auto_xdp.ProcEvents.{aligned}
use auto_xdp.State.{Bytes}

-- one round of the loop over a buffer
scan_socket :
    (fuel : ℕ) (m : SocketMessage) (rest : List ℕ)
    → IsSocketMessage m
    → scan_buffer (suc fuel) (encode_socket m ++ rest)
      ≡ yielding (decoded m) (scan_buffer fuel rest)
unfolding scan_buffer
scan_socket fuel m rest h =
    let f = socket_fields m rest h in
    rw
      (
        socket_of-encode_socket m rest h,
        f.0,
        f.1,
        after_socket m rest h,
        long_enough m rest nlmsghdr_sz h (omega arith),
        long_enough m rest (msg_len_of m) h (omega arith),
        long_enough m rest (aligned (msg_len_of m)) h (omega arith),
        whole_socket m rest,
        header_holds,
      )
      refl
  where
    header_holds : ltb (msg_len_of m) nlmsghdr_sz ≡ false
    header_holds = ground arith

-- sockets in front of other bytes
abbrev pub sockets_before : List SocketMessage → List ℕ → List ℕ
sockets_before [] rest = rest
sockets_before (m ∷ ms) rest = encode_socket m ++ sockets_before ms rest

scan_end : (k : ℕ) → scan_buffer (suc k) [] ≡ nothing_more exhausted
unfolding scan_buffer
scan_end k = refl

scan_done :
    (d : Done) (junk : List ℕ) (k : ℕ)
    → scan_buffer (suc k) (done_message d ++ junk) ≡ nothing_more done
unfolding scan_buffer
scan_done d junk k =
    let f = done_fields d junk in
    rw (f.0, f.1, done_bytes d junk 16 (omega arith), done_bytes d junk 20 (omega arith)) refl

-- sockets in front of bytes at which the loop ends
scan_sockets :
    (ms : List SocketMessage) (fuel : ℕ) (rest : List ℕ) (e : BufferEnd)
    → AreSockets ms
    → ((k : ℕ) → scan_buffer (suc k) rest ≡ nothing_more e)
    → length ms < fuel
    → scan_buffer fuel (sockets_before ms rest) ≡ record { sockets = map decoded ms; ends = e }
scan_sockets [] zero rest e h at_rest k = absurd (omega (arith, k))
scan_sockets (m ∷ ms) zero rest e h at_rest k = absurd (omega (arith, k))
scan_sockets [] (suc fuel) rest e h at_rest k = at_rest fuel
scan_sockets (m ∷ ms) (suc fuel) rest e (h, hs) at_rest k =
    scan_socket fuel m (sockets_before ms rest) h
    ∙ ap (yielding (decoded m)) (scan_sockets ms fuel rest e hs at_rest (omega (arith, k)))

-- a message has many bytes, so the bytes are fuel enough
length-sockets_before :
    (ms : List SocketMessage) (rest : List ℕ)
    → length ms + length rest ≤ length (sockets_before ms rest)
length-sockets_before [] rest = omega arith
length-sockets_before (m ∷ ms) rest = omega (
  arith,
  length-append (encode_socket m) (sockets_before ms rest),
  length-encode_socket m,
  length-sockets_before ms rest,
)

-- how the kernel ends a dump: with a last buffer that has NLMSG_DONE behind its sockets and anything
-- behind that, by closing, or with an OSError
pub data Closing : Type 0 where
  finished : List SocketMessage → Done → List ℕ → Closing
  closed : Closing
  failed : Closing

abbrev pub replies : List (List SocketMessage) → Closing → List (Option Bytes)
replies [] (finished ms d junk) = some (sockets_before ms (done_message d ++ junk)) ∷ []
replies [] closed = []
replies [] failed = none ∷ []
replies (b ∷ bs) c = some (sockets_before b []) ∷ replies bs c

abbrev pub sent : List (List SocketMessage) → Closing → List SocketMessage
sent [] (finished ms d junk) = ms
sent [] closed = []
sent [] failed = []
sent (b ∷ bs) c = b ++ sent bs c

abbrev pub ends_of : Closing → End
ends_of (finished ms d junk) = complete
ends_of closed = dump_error
ends_of failed = os_error

abbrev pub AreBuffers : List (List SocketMessage) → Type 0
AreBuffers [] = Unit
AreBuffers (b ∷ bs) = AreSockets b × (0 < length b) × AreBuffers bs

abbrev pub IsClosing : Closing → Type 0
IsClosing (finished ms d junk) = AreSockets ms
IsClosing closed = Unit
IsClosing failed = Unit

-- one buffer
recv_buffer :
    (ms : List SocketMessage) (rest : List ℕ) (e : BufferEnd) (more : List (Option Bytes))
    → AreSockets ms
    → ((k : ℕ) → scan_buffer (suc k) rest ≡ nothing_more e)
    → 0 < length ms + length rest
    → nldiag_dump (some (sockets_before ms rest) ∷ more)
      ≡ then_recv (map decoded ms) e (nldiag_dump more)
unfolding nldiag_dump
recv_buffer ms rest e more h at_rest some_bytes =
    rw
      (
        not_empty,
        scan_sockets ms (length (sockets_before ms rest) + 1) rest e h at_rest
            (omega (arith, length-sockets_before ms rest)),
      )
      refl
  where
    not_empty : (length (sockets_before ms rest) == 0) ≡ false
    not_empty = ground (arith, length-sockets_before ms rest, some_bytes)

-- For any buffers of well-formed messages about sockets, at least one in each, whatever their
-- headers, states, attributes and other fields are: `_nldiag_dump` yields every socket, in order and
-- with its ports, addresses, inode and queue; and it completes exactly if NLMSG_DONE has come, ends
-- in a DiscoveryError if the socket closes before, and in an OSError if the read fails.
pub nldiag_dump-replies :
    (bs : List (List SocketMessage)) (c : Closing)
    → AreBuffers bs
    → IsClosing c
    → nldiag_dump (replies bs c)
      ≡ some (record { sockets = map decoded (sent bs c); ends = ends_of c })
unfolding nldiag_dump
nldiag_dump-replies [] (finished ms d junk) h hc =
    recv_buffer ms (done_message d ++ junk) done [] hc (scan_done d junk)
      (omega (arith, done_length d junk))
nldiag_dump-replies [] closed h hc = refl
nldiag_dump-replies [] failed h hc = refl
nldiag_dump-replies (b ∷ bs) c (h, k, hs) hc =
    recv_buffer b [] exhausted (replies bs c) h scan_end (omega (arith, k))
    ∙ ap (then_recv (map decoded b) exhausted) (nldiag_dump-replies bs c hs hc)
    ∙ ap (λ ds. ending ds (ends_of c)) (sym (map-append decoded b (sent bs c)))
