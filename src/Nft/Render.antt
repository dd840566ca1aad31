-- ===== src/Nft/Render.antt =====
-- `_render_ruleset` of the nftables backend: the sets, the rules in their order, and the script.
use auto_xdp.Base.{
  Bool, List, Option, String, [], any, bool_eq, bool_key, concat, decimal, false, filter,
  if◌then◌else◌, join, leb, list_key, ltb, map, max, nat_key, not, option_key, pair_key, some, sort,
  string_key, text_leb, true, ℕ, ◌&&◌, ◌++◌, ◌==◌, ◌>>=◌, ◌∷◌,
}
use auto_xdp.Bpf.Kernel.{has_colon}
use auto_xdp.Config.{Config, Float}
use auto_xdp.Nft.{
  Cidrs, NftTable, bogon_v4, bogon_v6, collapse_cidrs, dynamic_block, has_v4, has_v6, limit_of,
  nft_schema_marker, nft_sctp_set, nft_tcp_set, nft_trusted_set4, nft_trusted_set6, nft_udp_set,
  rate, set_block,
}
use auto_xdp.Nft.Rules.{
  nft_acl_rules, tcp_policy_objects, tcp_policy_rules, udp_policy_rules, when_set,
}
use auto_xdp.State.{DesiredState}

-- the lines of a family that the table has
abbrev pub when {ℓ} : {A : Type ℓ} → Bool → List A → List A
when b lines = if b then lines else []

abbrev pub first_rules : List String
first_rules =
    "        tcp sport 0 counter drop" ∷ "        tcp dport 0 counter drop"
    ∷ "        tcp flags == 0 counter drop"
    ∷ "        tcp flags & (syn | fin) == (syn | fin) counter drop"
    ∷ "        tcp flags & (syn | rst) == (syn | rst) counter drop"
    ∷ "        tcp flags & (rst | fin) == (rst | fin) counter drop"
    ∷ "        tcp flags & (fin | psh | urg) == (fin | psh | urg) counter drop"
    ∷ "        udp sport 0 counter drop" ∷ "        udp dport 0 counter drop"
    ∷ "        udp length < 8 counter drop" ∷ "        ct state invalid counter drop"
    ∷ "        ct state established,related counter accept" ∷ []

-- `sorted(cidr for cidr in trusted_cidrs if ":" in cidr)`, or those without one
abbrev pub trusted_of : Bool → DesiredState → List String
trusted_of on6 desired =
    sort text_leb (filter (λ cidr. bool_eq (has_colon cidr) on6) desired.trusted_cidrs)

unfoldable pub has_port_limit : DesiredState → ℕ → Bool
has_port_limit desired port = ltb 0 (limit_of desired.tcp_conn_port_limits port)

-- the rates of ICMP, which the configuration gives: `icmp_rate` and `icmp_burst`
pub record IcmpLimits : Type 0 where
  pub icmp_rate : ℕ
  pub icmp_burst : ℕ

abbrev pub icmp_limits : (F : Float) → Config F → IcmpLimits
icmp_limits F cfg = record {
  icmp_rate = if F.positive cfg.xdp_icmp_rate_pps then rate (F.ceil cfg.xdp_icmp_rate_pps) else 0;
  icmp_burst = max 1 cfg.xdp_icmp_burst_packets;
}

-- what else the configuration gives
pub record RenderConfig : Type 0 where
  pub table : NftTable
  pub icmp : IcmpLimits
  pub sit4_endpoints : List String
  pub slot_default_action : String

unfoldable pub echo_rule : String → RenderConfig → List String
echo_rule match cfg = when (not (cfg.icmp.icmp_rate == 0)) (
    concat (
      match
      ∷ " type echo-request limit rate over "
      ∷ decimal cfg.icmp.icmp_rate
      ∷ "/second burst "
      ∷ decimal cfg.icmp.icmp_burst
      ∷ " packets counter drop"
      ∷ [])
    ∷ [])

unfoldable pub icmp_rules : RenderConfig → List String
icmp_rules cfg =
    when (has_v4 cfg.table) (
      "        ip protocol icmp icmp type { destination-unreachable, time-exceeded, parameter-problem } counter accept"
      ∷ concat ("        ip saddr @" ∷ nft_trusted_set4 ∷ " ip protocol icmp counter accept" ∷ [])
      ∷ (echo_rule "        ip protocol icmp icmp" cfg
          ++ ("        ip protocol icmp counter accept" ∷ [])))
    ++ when (has_v6 cfg.table) (
        concat
          ("        ip6 saddr @" ∷ nft_trusted_set6 ∷ " meta l4proto ipv6-icmp counter accept" ∷ [])
        ∷ (echo_rule "        meta l4proto ipv6-icmp icmpv6" cfg
            ++ ("        meta l4proto ipv6-icmp counter accept" ∷ [])))

unfoldable pub tunnel_rules : RenderConfig → List String
tunnel_rules cfg = when (has_v4 cfg.table && not (cfg.sit4_endpoints == [])) (
    concat (
      "        ip protocol ipv6 ip saddr { "
      ∷ join ", " (sort text_leb cfg.sit4_endpoints)
      ∷ " } counter accept"
      ∷ [])
    ∷ "        ip protocol ipv6 counter drop"
    ∷ [])

-- the script of the blocks and the rules
abbrev pub script_of : RenderConfig → Bool → List String → List String → String
script_of cfg replace blocks rules =
    let name = cfg.table.nft_family ∷ " " ∷ cfg.table.nft_table ∷ [] in
    concat (
      (if replace then concat ("delete table " ∷ (name ++ ("\n" ∷ []))) else "")
      ∷ concat ("table " ∷ (name ++ (" {\n" ∷ [])))
      ∷ join "\n\n" blocks
      ∷ "\n\n    chain input {\n"
      ∷ "        type filter hook input priority filter; policy accept;\n"
      ∷ join "\n" rules
      ∷ "\n    }\n}\n"
      ∷ [])

module _ (ipaddress : Cidrs) (cfg : RenderConfig) (desired : DesiredState) where
  unfoldable pub render_blocks : List String → List String → List String
  render_blocks trusted_v4 trusted_v6 =
      let on4 = has_v4 cfg.table in
      let on6 = has_v6 cfg.table in
      set_block nft_schema_marker "mark" [] false
      ∷ set_block nft_tcp_set "inet_service" (map decimal (sort leb desired.tcp_ports)) false
      ∷ set_block nft_udp_set "inet_service" (map decimal (sort leb desired.udp_ports)) false
      ∷ set_block nft_sctp_set "inet_service" (map decimal (sort leb desired.sctp_ports)) false
      ∷ set_block nft_trusted_set4 "ipv4_addr" trusted_v4 true
      ∷ set_block nft_trusted_set6 "ipv6_addr" trusted_v6 true
      ∷ (when (on4 && desired.bogon_filter_enabled)
            (set_block "bogon_v4" "ipv4_addr" bogon_v4 true ∷ [])
          ++ (when (on6 && desired.bogon_filter_enabled)
                (set_block "bogon_v6" "ipv6_addr" bogon_v6 true ∷ [])
              ++ (when on4 (tcp_policy_objects desired 4)
                  ++ (when on6 (tcp_policy_objects desired 6)
                      ++ when (any (has_port_limit desired) desired.tcp_ports)
                          (dynamic_block "tcp_conn_ports" "inet_service" ∷ [])))))

  unfoldable pub entry_rules : List String
  entry_rules =
      let on4 = has_v4 cfg.table in
      let on6 = has_v6 cfg.table in
      "        iifname \"lo\" counter accept"
      ∷ (when on4 ("        ip frag-off & 0x3fff != 0 counter drop" ∷ [])
          ++ (when on6 ("        exthdr frag exists counter drop" ∷ [])
              ++ (when (on4 && desired.bogon_filter_enabled)
                    ("        ip saddr @bogon_v4 counter drop" ∷ [])
                  ++ (when (on6 && desired.bogon_filter_enabled)
                        ("        ip6 saddr @bogon_v6 counter drop" ∷ [])
                      ++ first_rules))))

  unfoldable pub tcp_section : List String
  tcp_section =
      let on4 = has_v4 cfg.table in
      let on6 = has_v6 cfg.table in
      when on4 (
        concat (
          "        ip saddr @" ∷ nft_trusted_set4 ∷ " tcp flags & (syn | ack) == syn counter accept"
          ∷ [])
        ∷ nft_acl_rules desired "tcp" 4)
      ++ (when on6 (
            concat (
              "        ip6 saddr @" ∷ nft_trusted_set6
              ∷ " tcp flags & (syn | ack) == syn counter accept" ∷ [])
            ∷ nft_acl_rules desired "tcp" 6)
          ++ (when on4 (tcp_policy_rules ipaddress desired 4)
              ++ (when on6 (tcp_policy_rules ipaddress desired 6)
                  ++ (concat (
                        "        tcp flags & (syn | ack) == syn tcp dport @" ∷ nft_tcp_set
                        ∷ " counter accept" ∷ [])
                      ∷ "        meta l4proto tcp counter drop"
                      ∷ []))))

  -- the rate over all UDP ports
  unfoldable pub udp_global_rule : List String
  udp_global_rule = when_set desired.udp_global_byte_rate (λ value. concat (
      "        udp dport @"
      ∷ nft_udp_set
      ∷ " limit rate over "
      ∷ decimal (rate value)
      ∷ " bytes/second burst "
      ∷ decimal (rate value)
      ∷ " bytes counter drop"
      ∷ []))

  abbrev trusted_udp : String → String → String
  trusted_udp address set_text =
      concat (address ∷ " @" ∷ set_text ∷ " udp dport @" ∷ nft_udp_set ∷ " counter accept" ∷ [])

  unfoldable pub udp_section : List String
  udp_section =
      let on4 = has_v4 cfg.table in
      let on6 = has_v6 cfg.table in
      when on4 (trusted_udp "        ip saddr" nft_trusted_set4 ∷ nft_acl_rules desired "udp" 4)
      ++ (when on6
            (trusted_udp "        ip6 saddr" nft_trusted_set6 ∷ nft_acl_rules desired "udp" 6)
          ++ (udp_global_rule
              ++ (when on4 (udp_policy_rules ipaddress desired 4)
                  ++ (when on6 (udp_policy_rules ipaddress desired 6)
                      ++ (concat ("        udp dport @" ∷ nft_udp_set ∷ " counter accept" ∷ [])
                          ∷ "        meta l4proto udp counter drop"
                          ∷ concat ("        sctp dport @" ∷ nft_sctp_set ∷ " counter accept" ∷ [])
                          ∷ "        meta l4proto sctp counter drop"
                          ∷ [])))))

  unfoldable pub render_rules : List String
  render_rules =
      entry_rules
      ++ (tcp_section
          ++ (udp_section
              ++ (icmp_rules cfg
                  ++ (tunnel_rules cfg
                      ++ ((if cfg.slot_default_action == "drop"
                            then "        counter drop"
                            else "        counter accept")
                          ∷ [])))))

  unfoldable pub render_ruleset : Bool → Option String
  render_ruleset replace = do
    trusted_v4 ← collapse_cidrs ipaddress (trusted_of false desired)
    trusted_v6 ← collapse_cidrs ipaddress (trusted_of true desired)
    some (script_of cfg replace (render_blocks trusted_v4 trusted_v6) render_rules)
