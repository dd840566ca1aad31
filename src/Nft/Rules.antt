-- ===== src/Nft/Rules.antt =====
-- The rules of the nftables backend for one protocol and one family: `_acl_rules`,
-- `_tcp_policy_objects`, `_tcp_policy_rules` and `_udp_policy_rules`.
use auto_xdp.Base.{
  Bool, List, String, [], bool_eq, bool_key, concat, decimal, if◌then◌else◌, join, leb, list_key,
  ltb, map, nat_key, not, option_key, pair_key, sort, string_key, text_leb, ℕ, ◌++◌, ◌==◌, ◌||◌,
  ◌∷◌,
}
use auto_xdp.Bpf.Kernel.{has_colon}
use auto_xdp.Nft.{Cidrs, dynamic_block, limit_of, nft_tcp_set, nft_udp_set, prefix_mask, rate}
use auto_xdp.State.{AclRules, DesiredState}

-- `sorted(acl_rules.items())`: the keys differ, so the ports are never compared
abbrev pub key_leb : ((String × String) × List ℕ) → ((String × String) × List ℕ) → Bool
key_leb ((proto, cidr), ports) ((other_proto, other_cidr), other_ports) =
    if proto == other_proto then text_leb cidr other_cidr else text_leb proto other_proto

-- `sorted(limits.items())`
abbrev pub item_leb : ℕ × ℕ → ℕ × ℕ → Bool
item_leb (port, value) (other_port, other_value) =
    if port == other_port then leb value other_value else leb port other_port

abbrev pub addr_expr : ℕ → String
addr_expr family = if family == 4 then "ip saddr" else "ip6 saddr"

-- one rule of the ACL, with its ports in order
unfoldable pub acl_rule : String → ℕ → String → List ℕ → String
acl_rule proto family cidr ports =
    let rendered_ports = join ", " (map decimal ports) in
    if proto == "tcp"
    then concat (
        "        "
        ∷ addr_expr family
        ∷ " "
        ∷ cidr
        ∷ " tcp flags & (syn | ack) == syn tcp dport { "
        ∷ rendered_ports
        ∷ " } counter accept"
        ∷ [])
    else concat (
        "        "
        ∷ addr_expr family
        ∷ " "
        ∷ cidr
        ∷ " udp dport @"
        ∷ (if proto == "tcp" then nft_tcp_set else nft_udp_set)
        ∷ " udp dport { "
        ∷ rendered_ports
        ∷ " } counter accept"
        ∷ [])

-- the loop of `_acl_rules` over the sorted items
unfoldable pub acl_lines : String → ℕ → AclRules → List String
acl_lines proto family [] = []
acl_lines proto family (((rule_proto, cidr), ports) ∷ rules) =
    let rest = acl_lines proto family rules in
    if not (rule_proto == proto) || not (bool_eq (has_colon cidr) (family == 6)) || ports == []
    then rest
    else acl_rule proto family cidr (sort leb ports) ∷ rest

unfoldable pub nft_acl_rules : DesiredState → String → ℕ → List String
nft_acl_rules desired proto family = acl_lines proto family (sort key_leb desired.acl_rules)

-- the value of a limit, where it is set
abbrev pub when_set : ℕ → (ℕ → String) → List String
when_set value render = if ltb 0 value then render value ∷ [] else []

abbrev pub set_name : String → ℕ → String → ℕ → String
set_name head family tail port = concat (head ∷ decimal family ∷ tail ∷ decimal port ∷ [])

-- the sets that the connection limits of a port count in
unfoldable pub tcp_objects_of : DesiredState → ℕ → ℕ → List String
tcp_objects_of desired family port =
    let value_type = if family == 4 then "ipv4_addr" else "ipv6_addr" in
    when_set (limit_of desired.tcp_conn_limits port)
      (λ n. dynamic_block (set_name "tc" family "s_" port) value_type)
    ++ when_set (limit_of desired.tcp_conn_prefix_limits port)
        (λ n. dynamic_block (set_name "tc" family "p_" port) value_type)

-- a loop over sorted ports that extends a list
unfoldable pub for_ports : (ℕ → List String) → List ℕ → List String
for_ports lines [] = []
for_ports lines (port ∷ ports) = lines port ++ for_ports lines ports

unfoldable pub tcp_policy_objects : DesiredState → ℕ → List String
tcp_policy_objects desired family =
    for_ports (tcp_objects_of desired family) (sort leb desired.tcp_ports)

-- a meter that drops what is over a rate
abbrev pub meter : List String → String → ℕ → String → ℕ → String → String → String
meter match name family address value unit burst_unit = concat (
    match
    ++ (" meter "
        ∷ name
        ∷ " { "
        ∷ addr_expr family
        ∷ address
        ∷ " limit rate over "
        ∷ decimal (rate value)
        ∷ unit
        ∷ "/second burst "
        ∷ decimal (rate value)
        ∷ burst_unit
        ∷ " } counter drop"
        ∷ []))

-- a set that drops the connections over a count
abbrev pub ct_count : ℕ → String → List String → ℕ → String
ct_count port name counted value = concat (
    "        tcp dport "
    ∷ decimal port
    ∷ " ct state new add @"
    ∷ name
    ∷ " { "
    ∷ concat counted
    ∷ " ct count over "
    ∷ decimal value
    ∷ " } counter drop"
    ∷ [])

unfoldable pub source_prefix : DesiredState → ℕ → ℕ
source_prefix desired family =
    if family == 4 then desired.rate_limit_source_prefix_v4 else desired.rate_limit_source_prefix_v6

module _ (ipaddress : Cidrs) where
  unfoldable pub tcp_rules_of : DesiredState → ℕ → ℕ → List String
  tcp_rules_of desired family port =
      let mask = prefix_mask ipaddress family (source_prefix desired family) in
      let syn = "        tcp dport " ∷ decimal port ∷ " tcp flags & (syn | ack) == syn" ∷ [] in
      when_set (limit_of desired.tcp_syn_rate_limits port)
        (λ n. meter syn (set_name "ts" family "_" port) family "" n "" " packets")
      ++ (when_set (limit_of desired.tcp_syn_agg_rate_limits port) (λ n.
            meter syn (set_name "tp" family "_" port) family (concat (" & " ∷ mask ∷ [])) n ""
              " packets")
          ++ (when_set (limit_of desired.tcp_conn_limits port)
                (λ n. ct_count port (set_name "tc" family "s_" port) (addr_expr family ∷ []) n)
              ++ (when_set (limit_of desired.tcp_conn_prefix_limits port) (λ n.
                    ct_count port (set_name "tc" family "p_" port)
                      (addr_expr family ∷ " & " ∷ mask ∷ []) n)
                  ++ when_set (limit_of desired.tcp_conn_port_limits port)
                      (λ n. ct_count port "tcp_conn_ports" ("tcp dport" ∷ []) n))))

  unfoldable pub tcp_policy_rules : DesiredState → ℕ → List String
  tcp_policy_rules desired family =
      for_ports (tcp_rules_of desired family) (sort leb desired.tcp_ports)

  unfoldable pub udp_rules_of : DesiredState → ℕ → ℕ → List String
  udp_rules_of desired family port =
      let mask = prefix_mask ipaddress family (source_prefix desired family) in
      let to_port = "        udp dport " ∷ decimal port ∷ [] in
      when_set (limit_of desired.udp_rate_limits port)
        (λ n. meter to_port (set_name "us" family "_" port) family "" n "" " packets")
      ++ when_set (limit_of desired.udp_agg_rate_limits port) (λ n.
        meter to_port (set_name "up" family "_" port) family (concat (" & " ∷ mask ∷ [])) n " bytes"
          " bytes")

  unfoldable pub udp_policy_rules : DesiredState → ℕ → List String
  udp_policy_rules desired family =
      for_ports (udp_rules_of desired family) (sort leb desired.udp_ports)
