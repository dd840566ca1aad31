-- ===== src/Discovery.antt =====
-- auto_xdp/discovery.py: which addresses count as exposed, and the key of a flow. ipaddress is a
-- parameter.
pub mod Netlink
pub mod Keys
use Prim.Native.Char.{code}
use auto_xdp.Base.{
  Bool, List, Option, String, [], bool_key, contains, drop, false, if◌then◌else◌, leb, length,
  list_key, nat_key, none, option_key, pair_key, some, string_key, take, true, ℕ, ◌%◌, ◌&&◌, ◌++◌,
  ◌/◌, ◌==◌, ◌^◌, ◌||◌, ◌∷◌,
}
use auto_xdp.State.{Bytes}

-- What the program asks of an address and of a network.
pub record Ip : Type 0 where
  pub version : ℕ
  pub value : ℕ
  pub is_loopback : Bool
  pub is_multicast : Bool
  pub is_link_local : Bool

pub record Network : Type 0 where
  pub version : ℕ
  pub first_value : ℕ
  pub last_value : ℕ

-- `ip_address` and `ip_network`, which raise a ValueError
pub record Addresses : Type 0 where
  pub ip_address : String → Option Ip
  pub ip_network : String → Option Network

-- the globals of auto_xdp/config.py for discovery
pub record Exclusions : Type 0 where
  pub exclude_loopback : Bool
  pub exclude_bind_cidrs : List String
  pub exclude_ports : List ℕ

-- `addr.version == net.version and addr in net`
abbrev pub in_network : Ip → Network → Bool
in_network addr net =
    addr.version == net.version && leb net.first_value addr.value && leb addr.value net.last_value

unfoldable pub in_networks : Ip → List Network → Bool
in_networks addr [] = false
in_networks addr (net ∷ nets) = in_network addr net || in_networks addr nets

-- `text.split("%", 1)[0]`
unfoldable pub before_percent : String → String
before_percent String.[] = String.[]
before_percent (String.◌∷◌ c text) =
    let rest = before_percent text in if code c == b'%' then String.[] else String.◌∷◌ c rest

module _ (addresses : Addresses) (excl : Exclusions) where
  networks_of : List String → List Network
  networks_of [] = []
  networks_of (cidr ∷ cidrs) = elim (addresses.ip_network cidr) [
    | none ↦ networks_of cidrs
    | some net ↦ net ∷ networks_of cidrs
  ]

  unfoldable pub discovery_exclude_networks : List Network
  unfolding networks_of
  discovery_exclude_networks = networks_of excl.exclude_bind_cidrs

  unfoldable pub bind_ip_is_exposed : String → List Network → Bool
  bind_ip_is_exposed ip_str exclude_nets =
      if contains ip_str ("0.0.0.0" ∷ "::" ∷ "*" ∷ [])
      then true
      else elim (addresses.ip_address (before_percent ip_str)) [
        | none ↦ true
        | some addr ↦
            if excl.exclude_loopback && addr.is_loopback
            then false
            else if addr.is_multicast
            then false
            else if addr.is_link_local
            then false
            else if in_networks addr exclude_nets
            then false
            else true
      ]

abbrev pub af_inet : ℕ
af_inet = 2

abbrev pub af_inet6 : ℕ
af_inet6 = 10

unfoldable pub is_ipv4_mapped_v6 : Bytes → Bool
is_ipv4_mapped_v6 raw =
    leb 16 (length raw)
    && take 10 raw == 0 ∷ 0 ∷ 0 ∷ 0 ∷ 0 ∷ 0 ∷ 0 ∷ 0 ∷ 0 ∷ 0 ∷ []
    && take 2 (drop 10 raw) == 255 ∷ 255 ∷ []

-- `struct.pack("!HH", first, second)`
abbrev pub pack_ports : ℕ → ℕ → Bytes → Bytes
pack_ports first second rest =
    first / 2 ^ 8 % 2 ^ 8 ∷ first % 2 ^ 8 ∷ second / 2 ^ 8 % 2 ^ 8 ∷ second % 2 ^ 8 ∷ rest

unfoldable pub pack_conntrack_key_raw : ℕ → ℕ → ℕ → Bytes → Bytes → Bytes
pack_conntrack_key_raw family sport_h dport_h src dst =
    if family == af_inet
    then pack_ports dport_h sport_h (take 4 dst ++ take 4 src)
    else if family == af_inet6 && is_ipv4_mapped_v6 src && is_ipv4_mapped_v6 dst
    then pack_ports dport_h sport_h (take 4 (drop 12 dst) ++ take 4 (drop 12 src))
    else pack_ports dport_h sport_h (dst ++ src)
