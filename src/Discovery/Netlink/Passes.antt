-- ===== src/Discovery/Netlink/Passes.antt =====
-- The passes of `_get_listening_ports_netlink` of auto_xdp/discovery.py, one after another.
use auto_xdp.Base.{
  Bool, Bool-cases, Dict, List, [], arith, bool_key, false, if◌then◌else◌, inl, inr, list_key,
  nat_key, none, option_key, pair_key, refl, some, string_key, true, ℕ, ◌&&◌, ◌>>=◌, ◌∙◌, ◌∷◌, ◌≡◌,
}
use auto_xdp.Discovery.{Addresses, Exclusions, af_inet, af_inet6}
use auto_xdp.Discovery.Netlink.{
  Diag, End, Host, UdpAgg, add_drops, add_udp_ports, both_families, complete, dump_error, each,
  empty_state, get_listening_ports_netlink, if_complete, ipproto_tcp, ipproto_udp, os_error,
  sctp_pass, see_established, see_listener, see_udp, ss_all, ss_established, ss_listen,
}
use auto_xdp.State.{ObservedState}

-- what no socket changes, the loop leaves
pub each_keeps {ℓ κ} :
    {S : Type ℓ} {A : Type κ} (get : S → A) (f : Diag → S → S)
    → ((d : Diag) (s : S) → get (f d s) ≡ get s)
    → (socks : List Diag) (s : S) → get (each f socks s) ≡ get s
unfolding each
each_keeps get f keep [] s = refl
each_keeps get f keep (d ∷ socks) s = each_keeps get f keep socks (f d s) ∙ keep d s

is_complete : End → Bool
is_complete complete = true
is_complete os_error = false
is_complete dump_error = false

both_ends {ℓ} :
    {S : Type ℓ} (first second : End) (s : S) (f : S → S)
    → (if_complete first s >>= λ t. if_complete second (f t))
      ≡ (if is_complete first && is_complete second then some (f s) else none)
unfolding is_complete
both_ends complete complete s f = refl
both_ends complete os_error s f = refl
both_ends complete dump_error s f = refl
both_ends os_error second s f = refl
both_ends dump_error second s f = refl

module _ (addresses : Addresses) (excl : Exclusions) (host : Host) where
  both_complete : ℕ → ℕ → Bool
  both_complete proto states =
      is_complete (host.dump af_inet proto states).ends
      && is_complete (host.dump af_inet6 proto states).ends

  -- every socket of both families has been seen
  abbrev pub seen {ℓ} : {S : Type ℓ} → (ℕ → Diag → S → S) → ℕ → ℕ → S → S
  seen see proto states s =
      each (see af_inet6) (host.dump af_inet6 proto states).sockets
        (each (see af_inet) (host.dump af_inet proto states).sockets s)

  both_lem {ℓ} :
      {S : Type ℓ} (see : ℕ → Diag → S → S) (proto states : ℕ) (s : S)
      → both_families addresses excl host see proto states s
        ≡ (if both_complete proto states then some (seen see proto states s) else none)
  unfolding both_families both_complete
  both_lem see proto states s =
      both_ends (host.dump af_inet proto states).ends (host.dump af_inet6 proto states).ends
        (each (see af_inet) (host.dump af_inet proto states).sockets s)
        (each (see af_inet6) (host.dump af_inet6 proto states).sockets)

  abbrev pub seen_flows : ObservedState
  seen_flows =
      seen (see_established addresses excl host) ipproto_tcp ss_established
        (seen (see_listener addresses excl host) ipproto_tcp ss_listen empty_state)

  abbrev pub seen_udp : Dict ℕ UdpAgg
  seen_udp = seen see_udp ipproto_udp ss_all []

  abbrev pub all_drops : Dict ℕ ℕ
  all_drops = add_drops host.proc_udp6 (add_drops host.proc_udp4 [])

  abbrev pub seen_all : ObservedState
  seen_all = add_udp_ports addresses excl host all_drops seen_udp seen_flows

  netlink_lem : get_listening_ports_netlink addresses excl host ≡ (
      if both_complete ipproto_tcp ss_listen
      then if both_complete ipproto_tcp ss_established
        then if both_complete ipproto_udp ss_all
          then sctp_pass addresses excl host seen_all
          else none
        else none
      else none)
  unfolding get_listening_ports_netlink
  netlink_lem = elim (Bool-cases (both_complete ipproto_tcp ss_listen)) [
    | inr bad ↦ rw (listened, bad) refl
    | inl listening ↦ elim (Bool-cases (both_complete ipproto_tcp ss_established)) [
      | inr bad ↦ rw (listened, listening, established, bad) refl
      | inl connected ↦ elim (Bool-cases (both_complete ipproto_udp ss_all)) [
        | inr bad ↦ rw (listened, listening, established, connected, unconnected, bad) refl
        | inl unbound ↦ rw (listened, listening, established, connected, unconnected, unbound) refl
      ]
    ]
  ]
    where
      listened :
          both_families addresses excl host
            (see_listener addresses excl host)
            ipproto_tcp
            ss_listen
            empty_state
          ≡ (if both_complete ipproto_tcp ss_listen
              then some (seen (see_listener addresses excl host) ipproto_tcp ss_listen empty_state)
              else none)
      listened = both_lem (see_listener addresses excl host) ipproto_tcp ss_listen empty_state

      established :
          both_families addresses excl host
            (see_established addresses excl host)
            ipproto_tcp
            ss_established
            (seen (see_listener addresses excl host) ipproto_tcp ss_listen empty_state)
          ≡ (if both_complete ipproto_tcp ss_established then some seen_flows else none)
      established =
          both_lem (see_established addresses excl host) ipproto_tcp ss_established
            (seen (see_listener addresses excl host) ipproto_tcp ss_listen empty_state)

      unconnected :
          both_families addresses excl host see_udp ipproto_udp ss_all []
          ≡ (if both_complete ipproto_udp ss_all then some seen_udp else none)
      unconnected = both_lem see_udp ipproto_udp ss_all []

  -- where no exception leaves the function, each pass has seen all its sockets
  pub netlink_passes :
      (o : ObservedState)
      → get_listening_ports_netlink addresses excl host ≡ some o
      → sctp_pass addresses excl host seen_all ≡ some o
  netlink_passes o h = ground (arith, h, netlink_lem)
