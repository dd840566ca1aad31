-- ===== src/Discovery/Netlink/Observed.antt =====
-- Which TCP ports `_get_listening_ports_netlink` of auto_xdp/discovery.py reports.
use auto_xdp.Base.{
  ==_iff, Bool, Dict, List, [], ap, arith, bool_key, contains, contains-add, false, get_or, inl,
  inr, list_key, lookup, nat_key, not, option_key, pair_key, refl, some, string_key, sym, ℕ, ◌&&◌,
  ◌==◌, ◌||◌, ◌∙◌, ◌∷◌, ◌≡◌, ◌⊎◌,
}
use auto_xdp.Discovery.{Addresses, Exclusions, af_inet, af_inet6}
use auto_xdp.Discovery.Netlink.{
  Diag, End, Host, UdpAgg, add_udp, add_udp_ports, complete, dump_error, each, empty_state, exposed,
  get_listening_ports_netlink, ipproto_sctp, ipproto_tcp, os_error, sctp_ends, sctp_pass,
  see_established, see_listener, see_sctp, ss_established, ss_listen,
}
use auto_xdp.Discovery.Netlink.Passes.{
  all_drops, each_keeps, netlink_passes, seen_all, seen_flows, seen_udp,
}
use auto_xdp.State.{ObservedState}

abbrev pub any_socket : (Diag → Bool) → List Diag → Bool
any_socket p [] = false
any_socket p (d ∷ socks) = p d || any_socket p socks

sctp_ends_cases :
    (first second : End) (state4 state6 o : ObservedState)
    → sctp_ends first second state4 state6 ≡ some o
    → (state4 ≡ o) ⊎ (state6 ≡ o)
sctp_ends_cases dump_error second state4 state6 o h = absurd (cc)
sctp_ends_cases os_error second state4 state6 o h = inl (cc)
sctp_ends_cases complete dump_error state4 state6 o h = absurd (cc)
sctp_ends_cases complete os_error state4 state6 o h = inr (cc)
sctp_ends_cases complete complete state4 state6 o h = inr (cc)

module _ (addresses : Addresses) (excl : Exclusions) (host : Host) where
  -- a socket on the port whose address counts as exposed
  abbrev pub opens : ℕ → ℕ → Diag → Bool
  opens p family d = d.sport == p && exposed addresses excl host family d.src

  contains-see_listener :
      (p family : ℕ) (d : Diag) (s : ObservedState)
      → contains p (see_listener addresses excl host family d s).tcp
        ≡ (contains p s.tcp || (not (contains p excl.exclude_ports) && opens p family d))
  unfolding see_listener
  contains-see_listener p family d s =
      ground (arith, contains-add p d.sport s.tcp, ==_iff d.sport p)

  contains-listeners :
      (p family : ℕ) (socks : List Diag) (s : ObservedState)
      → contains p (each (see_listener addresses excl host family) socks s).tcp ≡ (
          contains p s.tcp
          || (not (contains p excl.exclude_ports) && any_socket (opens p family) socks))
  unfolding each
  contains-listeners p family [] s = ground arith
  contains-listeners p family (d ∷ socks) s = ground (
    arith,
    contains-listeners p family socks (see_listener addresses excl host family d s),
    contains-see_listener p family d s,
  )

  established-tcp :
      (family : ℕ) (d : Diag) (s : ObservedState)
      → (see_established addresses excl host family d s).tcp ≡ s.tcp
  unfolding see_established
  established-tcp family d s = ground arith

  sctp-tcp :
      (family : ℕ) (d : Diag) (s : ObservedState)
      → (see_sctp addresses excl host family d s).tcp ≡ s.tcp
  unfolding see_sctp
  sctp-tcp family d s = ground arith

  add_udp_ports-tcp :
      (drops : Dict ℕ ℕ) (agg : Dict ℕ UdpAgg) (s : ObservedState)
      → (add_udp_ports addresses excl host drops agg s).tcp ≡ s.tcp
  unfolding add_udp_ports add_udp
  add_udp_ports-tcp drops [] s = refl
  add_udp_ports-tcp drops ((port, info) ∷ agg) s = ground (
    arith,
    add_udp_ports-tcp drops agg
        (add_udp addresses excl host port info (get_or (lookup port drops) 0) s),
  )

  -- the last pass leaves what its sockets do not change
  pub sctp_pass_keeps {κ} :
      {A : Type κ} (get : ObservedState → A)
      → ((family : ℕ) (d : Diag) (s : ObservedState)
          → get (see_sctp addresses excl host family d s) ≡ get s)
      → (s o : ObservedState) → sctp_pass addresses excl host s ≡ some o
      → get o ≡ get s
  unfolding sctp_pass
  sctp_pass_keeps get keep s o h =
      elim (sctp_ends_cases (host.dump af_inet ipproto_sctp ss_listen).ends
        (host.dump af_inet6 ipproto_sctp ss_listen).ends state4 state6 o h) [
          | inl e ↦ ap get (sym e) ∙ kept4
          | inr e ↦
              ap get (sym e)
              ∙ each_keeps get (see_sctp addresses excl host af_inet6) (keep af_inet6)
                  (host.dump af_inet6 ipproto_sctp ss_listen).sockets state4
              ∙ kept4
        ]
    where
      state4 : ObservedState
      state4 =
          each (see_sctp addresses excl host af_inet)
            (host.dump af_inet ipproto_sctp ss_listen).sockets s

      state6 : ObservedState
      state6 =
          each (see_sctp addresses excl host af_inet6)
            (host.dump af_inet6 ipproto_sctp ss_listen).sockets state4

      kept4 : get state4 ≡ get s
      kept4 =
          each_keeps get (see_sctp addresses excl host af_inet) (keep af_inet)
            (host.dump af_inet ipproto_sctp ss_listen).sockets s

  -- Where no exception leaves the function: a TCP port is reported exactly when it is not excluded
  -- and one of the listening sockets of either family is bound to it at an exposed address.
  pub contains-netlink_tcp :
      (o : ObservedState) (p : ℕ)
      → get_listening_ports_netlink addresses excl host ≡ some o
      → contains p o.tcp ≡ (
          not (contains p excl.exclude_ports)
          && (any_socket (opens p af_inet) (host.dump af_inet ipproto_tcp ss_listen).sockets
              || any_socket (opens p af_inet6) (host.dump af_inet6 ipproto_tcp ss_listen).sockets))
  unfolding contains
  contains-netlink_tcp o p h =
      ap (contains p) (
        sctp_pass_keeps (λ s. s.tcp) sctp-tcp (seen_all addresses excl host) o
          (netlink_passes addresses excl host o h)
        ∙ add_udp_ports-tcp (all_drops addresses excl host) (seen_udp addresses excl host)
            (seen_flows addresses excl host)
        ∙ each_keeps (λ s. s.tcp) (see_established addresses excl host af_inet6)
            (established-tcp af_inet6) (host.dump af_inet6 ipproto_tcp ss_established).sockets _
        ∙ each_keeps (λ s. s.tcp) (see_established addresses excl host af_inet)
            (established-tcp af_inet) (host.dump af_inet ipproto_tcp ss_established).sockets _)
      ∙ contains-listeners p af_inet6 (host.dump af_inet6 ipproto_tcp ss_listen).sockets _
      ∙ ground (
        arith,
        contains-listeners p af_inet (host.dump af_inet ipproto_tcp ss_listen).sockets empty_state,
      )
