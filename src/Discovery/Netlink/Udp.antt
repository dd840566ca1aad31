-- ===== src/Discovery/Netlink/Udp.antt =====
-- Which UDP ports `_get_listening_ports_netlink` of auto_xdp/discovery.py reports.
use auto_xdp.Base.{
  ==_iff, Bool, Bool-cases, Dict, IsDict, List, Option, [], ap, arith, bool_key, contains,
  contains-add, false, get_or, inl, inr, length, list_key, lookup, ltb, nat_key, none, not,
  option_key, pair_key, refl, some, string_key, subst, ℕ, ◌&&◌, ◌++◌, ◌==◌, ◌||◌, ◌∙◌, ◌∷◌, ◌≡◌,
}
use auto_xdp.Discovery.{Addresses, Exclusions, af_inet, af_inet6}
use auto_xdp.Discovery.Netlink.{
  Diag, Host, UdpAgg, add_udp, add_udp_ports, each, exposed, get_listening_ports_netlink,
  ipproto_tcp, ipproto_udp, see_established, see_listener, see_sctp, see_udp, server_signal, ss_all,
  ss_established, ss_listen, udp_reported,
}
use auto_xdp.Discovery.Netlink.Aggregate.{
  all_connected, bound, each_udp-IsDict, extend, extend-append, extend-none, lookup-each_udp,
  summary, total_rqueue,
}
use auto_xdp.Discovery.Netlink.Observed.{sctp_pass_keeps}
use auto_xdp.Discovery.Netlink.Passes.{
  all_drops, each_keeps, netlink_passes, seen_all, seen_flows, seen_udp,
}
use auto_xdp.State.{ObservedState}

-- the loop over the dict
module _ (addresses : Addresses) (excl : Exclusions) (host : Host) where
  -- what a record of the dict leads to
  abbrev reports : ℕ → Option UdpAgg → ℕ → Bool
  reports p none drops = false
  reports p (some info) drops = udp_reported addresses excl host p info drops

  contains-add_udp :
      (p port : ℕ) (info : UdpAgg) (drops : ℕ) (s : ObservedState)
      → contains p (add_udp addresses excl host port info drops s).udp
        ≡ (contains p s.udp || (port == p && udp_reported addresses excl host port info drops))
  unfolding add_udp
  contains-add_udp p port info drops s =
      elim (Bool-cases (udp_reported addresses excl host port info drops)) [
        | inl listed ↦ rw listed (ground (arith, contains-add p port s.udp))
        | inr unlisted ↦ rw unlisted (ground arith)
      ]

  contains-add_udp_ports :
      (p : ℕ) (drops : Dict ℕ ℕ) (agg : Dict ℕ UdpAgg) (s : ObservedState)
      → IsDict agg
      → contains p (add_udp_ports addresses excl host drops agg s).udp
        ≡ (contains p s.udp || reports p (lookup p agg) (get_or (lookup p drops) 0))
  unfolding add_udp_ports lookup
  contains-add_udp_ports p drops [] s u = ground arith
  contains-add_udp_ports p drops ((port, info) ∷ agg) s u =
      contains-add_udp_ports p drops agg
        (add_udp addresses excl host port info (get_or (lookup port drops) 0) s) u.1
      ∙ elim (Bool-cases (port == p)) [
        | inl same ↦
            let e = (==_iff port p).0 same in
            let absent : lookup p agg ≡ none = subst (λ q. lookup q agg ≡ none) e u.0 in
            let moved =
              ap (λ q. udp_reported addresses excl host q info (get_or (lookup q drops) 0)) e in
            rw (contains-add_udp p port info (get_or (lookup port drops) 0) s, absent, same, moved)
              (ground arith)
        | inr away ↦
            rw (contains-add_udp p port info (get_or (lookup port drops) 0) s, away) (ground arith)
      ]

  established-udp :
      (family : ℕ) (d : Diag) (s : ObservedState)
      → (see_established addresses excl host family d s).udp ≡ s.udp
  unfolding see_established
  established-udp family d s = ground arith

  listener-udp :
      (family : ℕ) (d : Diag) (s : ObservedState)
      → (see_listener addresses excl host family d s).udp ≡ s.udp
  unfolding see_listener
  listener-udp family d s = ground arith

  sctp-udp :
      (family : ℕ) (d : Diag) (s : ObservedState)
      → (see_sctp addresses excl host family d s).udp ≡ s.udp
  unfolding see_sctp
  sctp-udp family d s = ground arith

  seen_flows-udp : (seen_flows addresses excl host).udp ≡ []
  seen_flows-udp =
      each_keeps (λ s. s.udp) (see_established addresses excl host af_inet6)
        (established-udp af_inet6) (host.dump af_inet6 ipproto_tcp ss_established).sockets _
      ∙ each_keeps (λ s. s.udp) (see_established addresses excl host af_inet)
          (established-udp af_inet) (host.dump af_inet ipproto_tcp ss_established).sockets _
      ∙ each_keeps (λ s. s.udp) (see_listener addresses excl host af_inet6) (listener-udp af_inet6)
          (host.dump af_inet6 ipproto_tcp ss_listen).sockets _
      ∙ each_keeps (λ s. s.udp) (see_listener addresses excl host af_inet) (listener-udp af_inet)
          (host.dump af_inet ipproto_tcp ss_listen).sockets _

  -- the sockets of a port in both dumps
  abbrev pub udp_sockets : ℕ → List (ℕ × Diag)
  udp_sockets p =
      bound p af_inet (host.dump af_inet ipproto_udp ss_all).sockets
      ++ bound p af_inet6 (host.dump af_inet6 ipproto_udp ss_all).sockets

  -- What the sockets of a port lead to, told without the dict: the first of them decides about
  -- the address, and all of them about the signs of a server.
  abbrev pub answers : ℕ → List (ℕ × Diag) → Bool
  answers p [] = false
  answers p ((family, d) ∷ socks) =
      exposed addresses excl host family d.src
      && not (contains p excl.exclude_ports)
      && (not (all_connected ((family, d) ∷ socks))
          || ltb 0 (length socks)
          || ltb 0 (total_rqueue ((family, d) ∷ socks))
          || ltb 0 (get_or (lookup p (all_drops addresses excl host)) 0))

  reports-summary :
      (p : ℕ) (socks : List (ℕ × Diag))
      → reports p (summary socks) (get_or (lookup p (all_drops addresses excl host)) 0)
        ≡ answers p socks
  unfolding udp_reported server_signal
  reports-summary p [] = refl
  reports-summary p ((family, d) ∷ socks) = ground arith

  lookup-seen_udp :
      (p : ℕ) → (p == 0) ≡ false → lookup p (seen_udp addresses excl host) ≡ summary (udp_sockets p)
  unfolding lookup
  lookup-seen_udp p h =
      lookup-each_udp p af_inet6 (host.dump af_inet6 ipproto_udp ss_all).sockets
        (each (see_udp af_inet) (host.dump af_inet ipproto_udp ss_all).sockets []) h
      ∙ ap (λ o. extend o (bound p af_inet6 (host.dump af_inet6 ipproto_udp ss_all).sockets))
          (lookup-each_udp p af_inet (host.dump af_inet ipproto_udp ss_all).sockets [] h)
      ∙ extend-append none (bound p af_inet (host.dump af_inet ipproto_udp ss_all).sockets)
          (bound p af_inet6 (host.dump af_inet6 ipproto_udp ss_all).sockets)
      ∙ extend-none (udp_sockets p)

  -- Where no exception leaves the function: a UDP port other than 0 is reported exactly when it has
  -- a socket, is not excluded, the first of its sockets has an exposed address, and one of its
  -- sockets is not connected, or it has several, or data waits at one, or packets were dropped.
  pub contains-netlink_udp :
      (o : ObservedState) (p : ℕ)
      → (p == 0) ≡ false
      → get_listening_ports_netlink addresses excl host ≡ some o
      → contains p o.udp ≡ answers p (udp_sockets p)
  unfolding contains
  contains-netlink_udp o p h e =
      ap (contains p) (
        sctp_pass_keeps addresses excl host (λ s. s.udp) sctp-udp (seen_all addresses excl host) o
          (netlink_passes addresses excl host o e))
      ∙ contains-add_udp_ports p (all_drops addresses excl host) (seen_udp addresses excl host)
          (seen_flows addresses excl host)
          (each_udp-IsDict af_inet6 _ _ (each_udp-IsDict af_inet _ [] tt))
      ∙ ap
          (λ l.
            contains p l
            || reports p (lookup p (seen_udp addresses excl host))
                (get_or (lookup p (all_drops addresses excl host)) 0))
          seen_flows-udp
      ∙ ap (λ r. reports p r (get_or (lookup p (all_drops addresses excl host)) 0))
          (lookup-seen_udp p h)
      ∙ reports-summary p (udp_sockets p)
