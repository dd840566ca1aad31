-- ===== src/Discovery/Netlink/Messages/Layout.antt =====
-- The messages of SOCK_DIAG as the kernel lays them out.
use auto_xdp.Base.{
  List, [], arith, bool_key, bytes_le, drop, drop-append, false, leb, length, length-append,
  list_key, ltb, nat_key, option_key, pair_key, refl, string_key, subst, swap16, take, true,
  word_le, word_le-bytes_le, ℕ, ◌++◌, ◌+◌, ◌<◌, ◌^◌, ◌∷◌, ◌≡◌, ◌≤◌,
}
use auto_xdp.Discovery.Netlink.{Diag}
use auto_xdp.Discovery.Netlink.Messages.{nlmsg_done, sock_diag_by_family, socket_of}
use auto_xdp.ProcEvents.{aligned}
use auto_xdp.Relay.Events.{field}

-- a message on one socket: the netlink header, `struct inet_diag_msg` with the addresses as numbers,
-- the attributes that follow it, and the padding
pub record SocketMessage : Type 0 where
  pub flags : ℕ
  pub seq : ℕ
  pub pid : ℕ
  pub family : ℕ
  pub socket_state : ℕ
  pub timer : ℕ
  pub retrans : ℕ
  pub sport : ℕ
  pub dport : ℕ
  pub src : ℕ
  pub dst : ℕ
  pub interface : ℕ
  pub cookie : ℕ
  pub expires : ℕ
  pub rqueue : ℕ
  pub wqueue : ℕ
  pub uid : ℕ
  pub inode : ℕ
  pub attributes : List ℕ
  pub pad : List ℕ

abbrev pub msg_len_of : SocketMessage → ℕ
msg_len_of m = 88 + length m.attributes

-- from the second address on
abbrev encode_rest : SocketMessage → List ℕ
encode_rest m =
    bytes_le 16 m.dst
    ++ (bytes_le 4 m.interface
        ++ (bytes_le 8 m.cookie
            ++ (bytes_le 4 m.expires
                ++ (bytes_le 4 m.rqueue
                    ++ (bytes_le 4 m.wqueue
                        ++ (bytes_le 4 m.uid
                            ++ (bytes_le 4 m.inode ++ (m.attributes ++ m.pad))))))))

-- the four bytes of the family, the state, the timer and the retransmissions, and the rest
abbrev encode_diag : SocketMessage → List ℕ
encode_diag m =
    bytes_le 1 m.family
    ++ (bytes_le 1 m.socket_state
        ++ (bytes_le 1 m.timer
            ++ (bytes_le 1 m.retrans
                ++ (bytes_le 2 (swap16 m.sport)
                    ++ (bytes_le 2 (swap16 m.dport) ++ (bytes_le 16 m.src ++ encode_rest m))))))

abbrev pub encode_socket : SocketMessage → List ℕ
encode_socket m =
    bytes_le 4 (msg_len_of m)
    ++ (bytes_le 2 sock_diag_by_family
        ++ (bytes_le 2 m.flags ++ (bytes_le 4 m.seq ++ (bytes_le 4 m.pid ++ encode_diag m))))

abbrev pub decoded : SocketMessage → Diag
decoded m = record {
  sport = m.sport;
  dport = m.dport;
  src = bytes_le 16 m.src;
  dst = bytes_le 16 m.dst;
  inode = m.inode;
  rqueue = m.rqueue;
}

pub record IsSocketMessage (m : SocketMessage) : Type 0 where
  pub msg_len : msg_len_of m < 2 ^ 32
  pub sport : m.sport < 2 ^ 16
  pub dport : m.dport < 2 ^ 16
  pub rqueue : m.rqueue < 2 ^ 32
  pub inode : m.inode < 2 ^ 32
  pub pad : msg_len_of m + length m.pad ≡ aligned (msg_len_of m)

abbrev pub AreSockets : List SocketMessage → Type 0
AreSockets [] = Unit
AreSockets (m ∷ ms) = IsSocketMessage m × AreSockets ms

abbrev pub encode_sockets : List SocketMessage → List ℕ
encode_sockets [] = []
encode_sockets (m ∷ ms) = encode_socket m ++ encode_sockets ms

-- NLMSG_DONE, with the rest of its header and its four bytes
pub record Done : Type 0 where
  pub flags : ℕ
  pub seq : ℕ
  pub pid : ℕ
  pub result : ℕ

abbrev pub done_message : Done → List ℕ
done_message d =
    bytes_le 4 20
    ++ (bytes_le 2 nlmsg_done
        ++ (bytes_le 2 d.flags ++ (bytes_le 4 d.seq ++ (bytes_le 4 d.pid ++ bytes_le 4 d.result))))

swapped : (p : ℕ) → p < 2 ^ 16 → swap16 (word_le (bytes_le 2 (swap16 p))) ≡ p
unfolding swap16
swapped p h = rw (word_le-bytes_le 2 (swap16 p) (omega arith)) (omega arith)

pub socket_fields :
    (m : SocketMessage) (rest : List ℕ)
    → IsSocketMessage m
    → (field 0 4 (encode_socket m ++ rest) ≡ msg_len_of m)
      × (field 4 2 (encode_socket m ++ rest) ≡ sock_diag_by_family)
      × (swap16 (field 20 2 (encode_socket m ++ rest)) ≡ m.sport)
      × (swap16 (field 22 2 (encode_socket m ++ rest)) ≡ m.dport)
      × (field 84 4 (encode_socket m ++ rest) ≡ m.inode)
      × (field 72 4 (encode_socket m ++ rest) ≡ m.rqueue)
unfolding field take drop bytes_le
socket_fields m rest h = (
  word_le-bytes_le 4 (msg_len_of m) h.msg_len,
  word_le-bytes_le 2 sock_diag_by_family (omega arith),
  swapped m.sport h.sport,
  swapped m.dport h.dport,
  word_le-bytes_le 4 m.inode h.inode,
  word_le-bytes_le 4 m.rqueue h.rqueue,
)

socket_addresses :
    (m : SocketMessage) (rest : List ℕ)
    → (take 16 (drop 24 (encode_socket m ++ rest)) ≡ bytes_le 16 m.src)
      × (take 16 (drop 40 (encode_socket m ++ rest)) ≡ bytes_le 16 m.dst)
unfolding take drop bytes_le
socket_addresses m rest = (refl, refl)

pub socket_of-encode_socket :
    (m : SocketMessage) (rest : List ℕ)
    → IsSocketMessage m
    → socket_of (encode_socket m ++ rest) ≡ decoded m
socket_of-encode_socket m rest h =
    let f = socket_fields m rest h in
    let a = socket_addresses m rest in rw (f.2, f.3, f.4, f.5, a.0, a.1) refl

pub length-encode_socket :
    (m : SocketMessage) → length (encode_socket m) ≡ 88 + (length m.attributes + length m.pad)
unfolding bytes_le
length-encode_socket m = omega (arith, length-append m.attributes m.pad)

pub after_socket :
    (m : SocketMessage) (rest : List ℕ)
    → IsSocketMessage m
    → drop (aligned (msg_len_of m)) (encode_socket m ++ rest) ≡ rest
after_socket m rest h =
    subst (λ n. drop n (encode_socket m ++ rest) ≡ rest)
      (omega (arith, h.pad, length-encode_socket m)) (drop-append (encode_socket m) rest)

-- the bytes suffice for every test of the loop
pub long_enough :
    (m : SocketMessage) (rest : List ℕ) (n : ℕ)
    → IsSocketMessage m
    → n ≤ aligned (msg_len_of m)
    → ltb (length (encode_socket m ++ rest)) n ≡ false
long_enough m rest n h k =
    let bytes : aligned (msg_len_of m) ≤ length (encode_socket m ++ rest) =
      omega (arith, h.pad, length-append (encode_socket m) rest, length-encode_socket m) in
    ground (arith, bytes, k)

pub whole_socket :
    (m : SocketMessage) (rest : List ℕ) → leb 88 (length (encode_socket m ++ rest)) ≡ true
whole_socket m rest =
    let bytes : 88 ≤ length (encode_socket m ++ rest) =
      omega (arith, length-append (encode_socket m) rest, length-encode_socket m) in
    ground (arith, bytes)

pub done_fields :
    (d : Done) (junk : List ℕ)
    → (field 0 4 (done_message d ++ junk) ≡ 20) × (field 4 2 (done_message d ++ junk) ≡ nlmsg_done)
unfolding field take drop bytes_le
done_fields d junk =
    (word_le-bytes_le 4 20 (omega arith), word_le-bytes_le 2 nlmsg_done (omega arith))

pub done_bytes :
    (d : Done) (junk : List ℕ) (n : ℕ) → n ≤ 20 → ltb (length (done_message d ++ junk)) n ≡ false
unfolding bytes_le
done_bytes d junk n h = ground (arith, h)

pub done_length : (d : Done) (junk : List ℕ) → 0 < length (done_message d ++ junk)
unfolding bytes_le
done_length d junk = omega arith
