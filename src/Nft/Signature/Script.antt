-- ===== src/Nft/Signature/Script.antt =====
-- The whole script of the nftables backend under equal signatures.
use auto_xdp.Base.{
  Bool, List, String, ap, bool_key, false, list_key, nat_key, option_key, pair_key, refl, some,
  string_key, true, ◌>>=◌, ◌∙◌, ◌≡◌,
}
use auto_xdp.Nft.{Cidrs, collapse_cidrs}
use auto_xdp.Nft.Render.{
  RenderConfig, entry_rules, render_blocks, render_rules, render_ruleset, script_of, tcp_section,
  udp_global_rule, udp_section,
}
use auto_xdp.Nft.Signature.{policy_signature, settings_part}
use auto_xdp.Nft.Signature.Same.{
  Same, Same-limits, any_port_limit_same, nft_acl_rules_same, tcp_policy_objects_same,
  tcp_policy_rules_same, trusted_of_same, udp_policy_rules_same,
}
use auto_xdp.State.{DesiredState}
use auto_xdp.State.Reached.{IsDesired}

module _ (ipaddress : Cidrs) (cfg : RenderConfig) (d d' : DesiredState) (same : Same d d') where
  bogon_same : d.bogon_filter_enabled ≡ d'.bogon_filter_enabled
  bogon_same = ap (λ t. t.1.0) same.switches

  render_blocks_same :
      (trusted_v4 trusted_v6 : List String)
      → render_blocks ipaddress cfg d trusted_v4 trusted_v6
        ≡ render_blocks ipaddress cfg d' trusted_v4 trusted_v6
  unfolding render_blocks
  render_blocks_same trusted_v4 trusted_v6 =
      rw
        (
          ap (λ t. t.0) same.ports,
          ap (λ t. t.1.0) same.ports,
          ap (λ t. t.1.1.0) same.ports,
          tcp_policy_objects_same d d' same 4,
          tcp_policy_objects_same d d' same 6,
          any_port_limit_same d d' same,
          bogon_same,
        )
        refl

  tcp_section_same : tcp_section ipaddress cfg d ≡ tcp_section ipaddress cfg d'
  unfolding tcp_section
  tcp_section_same =
      rw
        (
          nft_acl_rules_same d d' same "tcp" 4,
          nft_acl_rules_same d d' same "tcp" 6,
          tcp_policy_rules_same d d' same ipaddress 4,
          tcp_policy_rules_same d d' same ipaddress 6,
        )
        refl

  udp_section_same : udp_section ipaddress cfg d ≡ udp_section ipaddress cfg d'
  unfolding udp_section udp_global_rule
  udp_section_same =
      rw
        (
          nft_acl_rules_same d d' same "udp" 4,
          nft_acl_rules_same d d' same "udp" 6,
          udp_policy_rules_same d d' same ipaddress 4,
          udp_policy_rules_same d d' same ipaddress 6,
          ap (λ t. t.1.1.1.1.1) same.switches,
        )
        refl

  entry_rules_same : entry_rules ipaddress cfg d ≡ entry_rules ipaddress cfg d'
  unfolding entry_rules
  entry_rules_same = rw bogon_same refl

  render_rules_same : render_rules ipaddress cfg d ≡ render_rules ipaddress cfg d'
  unfolding render_rules
  render_rules_same = rw (entry_rules_same, tcp_section_same, udp_section_same) refl

  pub render_ruleset_same :
      (replace : Bool)
      → render_ruleset ipaddress cfg d replace ≡ render_ruleset ipaddress cfg d' replace
  unfolding render_ruleset
  render_ruleset_same replace = λ i. do
    trusted_v4 ← collapse_cidrs ipaddress (trusted_of_same d d' same false i)
    trusted_v6 ← collapse_cidrs ipaddress (trusted_of_same d d' same true i)
    some (script_of cfg replace (render_blocks_same trusted_v4 trusted_v6 i) (render_rules_same i))

settings_decide :
    (cfg cfg' : RenderConfig)
    → settings_part cfg ≡ settings_part cfg'
    → cfg.icmp ≡ cfg'.icmp
    → cfg ≡ cfg'
settings_decide cfg cfg' e f = λ i. record {
  table = record { nft_family = (e i).1.1.0; nft_table = (e i).1.1.1 };
  icmp = f i;
  sit4_endpoints = (e i).0;
  slot_default_action = (e i).1.0;
}

-- Wherever two policies and configurations have one signature, and the limits of ICMP are the same,
-- the script of the one is the script of the other: a backend that skips a policy whose signature
-- it has seen leaves nothing out. The dicts list no key twice.
pub render_ruleset-policy_signature :
    (ipaddress : Cidrs) (cfg cfg' : RenderConfig) (d d' : DesiredState) (replace : Bool)
    → IsDesired d
    → IsDesired d'
    → policy_signature cfg d ≡ policy_signature cfg' d'
    → cfg.icmp ≡ cfg'.icmp
    → render_ruleset ipaddress cfg d replace ≡ render_ruleset ipaddress cfg' d' replace
unfolding policy_signature
render_ruleset-policy_signature ipaddress cfg cfg' d d' replace h h' e f =
    render_ruleset_same ipaddress cfg d d'
      (Same-limits d d' h h' (ap (λ s. s.0) e) (ap (λ s. s.1.0) e) (ap (λ s. s.1.1.0) e)) replace
    ∙ ap (λ c. render_ruleset ipaddress c d' replace)
        (settings_decide cfg cfg' (ap (λ s. s.1.1.1) e) f)
