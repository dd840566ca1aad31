-- ===== src/Discovery/Netlink/Aggregate.antt =====
-- The dict of UDP sockets by port that `_get_listening_ports_netlink` of auto_xdp/discovery.py builds,
-- against the sockets of one port.
use auto_xdp.Base.{
  ==_iff, Bool, Bool-cases, Dict, IsDict, List, Option, [], ap, arith, bool_key, false,
  if◌then◌else◌, inl, inr, insert-IsDict, length, list_key, lookup, lookup-insert, nat_key, none,
  not, option_key, pair_key, refl, some, string_key, true, ℕ, ◌&&◌, ◌++◌, ◌+◌, ◌==◌, ◌∙◌, ◌∷◌, ◌≡◌,
}
use auto_xdp.Discovery.Netlink.{Diag, UdpAgg, each, next_agg, see_udp}

-- the sockets of one port, each with its family, in the order of the dumps
unfoldable pub bound : ℕ → ℕ → List Diag → List (ℕ × Diag)
bound p family [] = []
bound p family (d ∷ socks) =
    let rest = bound p family socks in if d.sport == p then (family, d) ∷ rest else rest

abbrev pub total_rqueue : List (ℕ × Diag) → ℕ
total_rqueue [] = 0
total_rqueue ((family, d) ∷ socks) = d.rqueue + total_rqueue socks

abbrev pub all_connected : List (ℕ × Diag) → Bool
all_connected [] = true
all_connected ((family, d) ∷ socks) = not (d.dport == 0) && all_connected socks

-- the first of the sockets with the sums over all of them
abbrev pub summary : List (ℕ × Diag) → Option UdpAgg
summary [] = none
summary ((family, d) ∷ socks) = some (record {
  family = family;
  src = d.src;
  inode = d.inode;
  rqueue = d.rqueue + total_rqueue socks;
  count = length socks + 1;
  connected_only = not (d.dport == 0) && all_connected socks;
})

pub extend : Option UdpAgg → List (ℕ × Diag) → Option UdpAgg
extend o [] = o
extend o ((family, d) ∷ socks) = extend (some (next_agg family d o)) socks

extend-some :
    (info : UdpAgg) (socks : List (ℕ × Diag))
    → extend (some info) socks
      ≡ some (record info {
        rqueue = info.rqueue + total_rqueue socks;
        count = info.count + length socks;
        connected_only = info.connected_only && all_connected socks;
      })
unfolding extend
extend-some info [] = ground arith
extend-some info ((family, d) ∷ socks) =
    extend-some (next_agg family d (some info)) socks ∙ ground arith

pub extend-none : (socks : List (ℕ × Diag)) → extend none socks ≡ summary socks
unfolding extend
extend-none [] = refl
extend-none ((family, d) ∷ socks) = extend-some (next_agg family d none) socks ∙ ground arith

pub extend-append :
    (o : Option UdpAgg) (xs ys : List (ℕ × Diag)) → extend (extend o xs) ys ≡ extend o (xs ++ ys)
unfolding extend
extend-append o [] ys = refl
extend-append o ((family, d) ∷ xs) ys = extend-append (some (next_agg family d o)) xs ys

lookup-see_udp :
    (p family : ℕ) (d : Diag) (agg : Dict ℕ UdpAgg)
    → (p == 0) ≡ false
    → lookup p (see_udp family d agg)
      ≡ (if d.sport == p then some (next_agg family d (lookup p agg)) else lookup p agg)
unfolding see_udp
lookup-see_udp p family d agg h = elim (Bool-cases (d.sport == p)) [
  | inl same ↦
      let e = ap (λ q. next_agg family d (lookup q agg)) ((==_iff d.sport p).0 same) in
      ground
        (arith, h, same, e, lookup-insert p d.sport (next_agg family d (lookup d.sport agg)) agg)
  | inr away ↦
      ground (arith, h, away, lookup-insert p d.sport (next_agg family d (lookup d.sport agg)) agg)
]

pub lookup-each_udp :
    (p family : ℕ) (socks : List Diag) (agg : Dict ℕ UdpAgg)
    → (p == 0) ≡ false
    → lookup p (each (see_udp family) socks agg) ≡ extend (lookup p agg) (bound p family socks)
unfolding each extend bound
lookup-each_udp p family [] agg h = refl
lookup-each_udp p family (d ∷ socks) agg h =
    lookup-each_udp p family socks (see_udp family d agg) h ∙ elim (Bool-cases (d.sport == p)) [
      | inl same ↦ rw (lookup-see_udp p family d agg h, same) refl
      | inr away ↦ rw (lookup-see_udp p family d agg h, away) refl
    ]

see_udp-IsDict :
    (family : ℕ) (d : Diag) (agg : Dict ℕ UdpAgg) → IsDict agg → IsDict (see_udp family d agg)
unfolding see_udp
see_udp-IsDict family d agg u = elim (Bool-cases (d.sport == 0)) [
  | inl unbound ↦ rw unbound u
  | inr port ↦ rw port (insert-IsDict d.sport (next_agg family d (lookup d.sport agg)) agg u)
]

pub each_udp-IsDict :
    (family : ℕ) (socks : List Diag) (agg : Dict ℕ UdpAgg)
    → IsDict agg
    → IsDict (each (see_udp family) socks agg)
unfolding each
each_udp-IsDict family [] agg u = u
each_udp-IsDict family (d ∷ socks) agg u =
    each_udp-IsDict family socks (see_udp family d agg) (see_udp-IsDict family d agg u)
