-- ===== src/Nft.antt =====
-- auto_xdp/backends/nftables.py: the fallback that puts the whole policy in place as one script of
-- nft. Here are its blocks of sets and what it asks of ipaddress.
pub mod Rules
pub mod Render
pub mod Signature
pub mod Apply
use auto_xdp.Base.{
  Bool, Dict, List, Option, String, [], bool_key, concat, contains, false, filter, get_or,
  if◌then◌else◌, join, list_key, lookup, map, max, min, nat_key, not, option_key, pair_key, some,
  string_key, ℕ, ◌++◌, ◌==◌, ◌>>=◌, ◌∷◌,
}

-- `ip_network`, `collapse_addresses`, and the netmask of a family and a prefix
pub record Cidrs : Type 1 where
  pub Net : Type 0
  pub ip_network : String → Option Net
  pub is_v4 : Net → Bool
  pub collapse_addresses : List Net → List Net
  pub to_text : Net → String
  pub netmask : ℕ → ℕ → String

-- the two texts of the configuration that name the table
pub record NftTable : Type 0 where
  pub nft_family : String
  pub nft_table : String

abbrev pub nft_schema_marker : String
nft_schema_marker = "policy_schema_v2"

abbrev pub nft_tcp_set : String
nft_tcp_set = "tcp_ports"

abbrev pub nft_udp_set : String
nft_udp_set = "udp_ports"

abbrev pub nft_sctp_set : String
nft_sctp_set = "sctp_ports"

abbrev pub nft_trusted_set4 : String
nft_trusted_set4 = "trusted_v4"

abbrev pub nft_trusted_set6 : String
nft_trusted_set6 = "trusted_v6"

abbrev pub bogon_v4 : List String
bogon_v4 =
    "0.0.0.0/8" ∷ "10.0.0.0/8" ∷ "100.64.0.0/10" ∷ "127.0.0.0/8" ∷ "169.254.0.0/16"
    ∷ "172.16.0.0/12" ∷ "192.168.0.0/16" ∷ "224.0.0.0/4" ∷ "240.0.0.0/4" ∷ []

abbrev pub bogon_v6 : List String
bogon_v6 = "::/128" ∷ "::1/128" ∷ "::ffff:0:0/96" ∷ "fc00::/7" ∷ "fe80::/10" ∷ "ff00::/8" ∷ []

-- the lines of a set before the closing brace
unfoldable pub set_lines : String → String → List String → Bool → List String
set_lines name value_type elements interval =
    concat ("    set " ∷ name ∷ " {" ∷ [])
    ∷ concat ("        type " ∷ value_type ∷ [])
    ∷ ((if interval then "        flags interval" ∷ [] else [])
        ++ (if elements == []
            then []
            else concat ("        elements = { " ∷ join ", " elements ∷ " }" ∷ []) ∷ []))

unfoldable pub set_block : String → String → List String → Bool → String
set_block name value_type elements interval =
    join "\n" (set_lines name value_type elements interval ++ ("    }" ∷ []))

-- a block without elements, whose closing brace was replaced by the flag and the brace
unfoldable pub dynamic_block : String → String → String
dynamic_block name value_type =
    join "\n" (set_lines name value_type [] false ++ ("        flags dynamic" ∷ "    }" ∷ []))

-- `_rate` of a whole number
abbrev pub rate : ℕ → ℕ
rate value = max 1 value

module _ (ipaddress : Cidrs) where
  unfoldable pub prefix_mask : ℕ → ℕ → String
  prefix_mask family prefix =
      ipaddress.netmask family (min (if family == 4 then 32 else 128) prefix)

  networks_of : List String → Option (List ipaddress.Net)
  networks_of [] = some []
  networks_of (cidr ∷ cidrs) = do
    net ← ipaddress.ip_network cidr
    nets ← networks_of cidrs
    some (net ∷ nets)

  -- `none` is the ValueError of a text that is no network
  unfoldable pub collapse_cidrs : List String → Option (List String)
  unfolding networks_of
  collapse_cidrs cidrs = do
    networks ← networks_of cidrs
    let on4 = filter ipaddress.is_v4 networks
    let on6 = filter (λ net. not (ipaddress.is_v4 net)) networks
    some (
        map ipaddress.to_text
          (ipaddress.collapse_addresses on4 ++ ipaddress.collapse_addresses on6))

-- `_family_flags`
abbrev pub has_v4 : NftTable → Bool
has_v4 table = contains table.nft_family ("inet" ∷ "ip" ∷ [])

abbrev pub has_v6 : NftTable → Bool
has_v6 table = contains table.nft_family ("inet" ∷ "ip6" ∷ [])

-- `limits.get(port, 0)`
abbrev pub limit_of : Dict ℕ ℕ → ℕ → ℕ
limit_of limits port = get_or (lookup port limits) 0
