-- ===== src/Examples/Tables.antt =====
-- The nftables backend on a small policy: its script, and rounds that show, install and repeat it.
use auto_xdp.Base.{
  Bool, List, Option, String, [], bool_key, concat, contains, decimal, drop, false, filter, inr,
  list_key, lookup, nat_key, none, not, option_key, pair_key, place, refl, some, sort, string_key,
  true, ◌∷◌, ◌≡◌,
}
use auto_xdp.Bpf.Kernel.{has_colon}
use auto_xdp.Nft.{Cidrs, collapse_cidrs}
use auto_xdp.Nft.Apply.{NftBackend, apply_nft_plan, install_ruleset}
use auto_xdp.Nft.Apply.Atomic.{apply_nft_plan_atomic, backend_of}
use auto_xdp.Nft.Apply.Rounds.{IsEnforced, Round, run_rounds, run_rounds_enforce}
use auto_xdp.Nft.Render.{
  RenderConfig, render_blocks, render_rules, render_ruleset, script_of, tcp_section,
}
use auto_xdp.Nft.Rules.{acl_lines, for_ports, nft_acl_rules, tcp_policy_rules, tcp_rules_of}
use auto_xdp.Nft.Signature.{policy_signature}
use auto_xdp.Nft.Signature.Script.{render_ruleset-policy_signature}
use auto_xdp.Samples.{sample_desired}
use auto_xdp.State.{DesiredState}
use auto_xdp.State.Reached.{IsDesired}

-- a network is its text, and networks are not joined
abbrev texts_only : Cidrs
texts_only = record {
  Net = String;
  ip_network = λ text. some text;
  is_v4 = λ text. not (has_colon text);
  collapse_addresses = λ nets. nets;
  to_text = λ text. text;
  netmask = λ family prefix. "255.255.255.255";
}

abbrev sample_render : RenderConfig
sample_render = record {
  table = record { nft_family = "ip"; nft_table = "auto_xdp" };
  icmp = record { icmp_rate = 100; icmp_burst = 100 };
  sit4_endpoints = [];
  slot_default_action = "drop";
}

abbrev sample_script : String
sample_script =
    script_of sample_render true (render_blocks texts_only sample_render sample_desired [] [])
      (render_rules texts_only sample_render sample_desired)

-- the last rules of the TCP part
tcp_section_runs :
    drop 1 (tcp_section texts_only sample_render sample_desired)
    ≡ "        tcp dport 443 tcp flags & (syn | ack) == syn meter ts4_443 { ip saddr limit rate over 100/second burst 100 packets } counter drop"
      ∷ "        tcp flags & (syn | ack) == syn tcp dport @tcp_ports counter accept"
      ∷ "        meta l4proto tcp counter drop" ∷ []
unfolding drop tcp_section nft_acl_rules acl_lines sort tcp_policy_rules for_ports tcp_rules_of
    place lookup concat contains decimal
tcp_section_runs = refl

-- the same policy, its table of limits in another order
abbrev two_ports : DesiredState
two_ports = record sample_desired {
  tcp_ports = 22 ∷ 443 ∷ [];
  tcp_syn_rate_limits = (443, 100) ∷ (22, 3) ∷ [];
}

abbrev two_ports_again : DesiredState
two_ports_again = record sample_desired {
  tcp_ports = 443 ∷ 22 ∷ [];
  tcp_syn_rate_limits = (22, 3) ∷ (443, 100) ∷ [];
}

two_ports-IsDesired : IsDesired two_ports
unfolding lookup
two_ports-IsDesired = record {
  tcp_syn_rate_limits = (refl, (refl, tt));
  tcp_syn_agg_rate_limits = tt;
  tcp_conn_limits = tt;
  tcp_conn_prefix_limits = tt;
  tcp_conn_port_limits = tt;
  udp_rate_limits = (refl, tt);
  udp_agg_rate_limits = tt;
  acl_rules = tt;
}

two_ports_again-IsDesired : IsDesired two_ports_again
unfolding lookup
two_ports_again-IsDesired = record {
  tcp_syn_rate_limits = (refl, (refl, tt));
  tcp_syn_agg_rate_limits = tt;
  tcp_conn_limits = tt;
  tcp_conn_prefix_limits = tt;
  tcp_conn_port_limits = tt;
  udp_rate_limits = (refl, tt);
  udp_agg_rate_limits = tt;
  acl_rules = tt;
}

same_signature :
    policy_signature sample_render two_ports ≡ policy_signature sample_render two_ports_again
unfolding policy_signature sort place
same_signature = refl

render_ruleset-policy_signature_example :
    render_ruleset texts_only sample_render two_ports true
    ≡ render_ruleset texts_only sample_render two_ports_again true
render_ruleset-policy_signature_example =
    render_ruleset-policy_signature texts_only sample_render sample_render two_ports two_ports_again
      true two_ports-IsDesired two_ports_again-IsDesired same_signature refl

abbrev fresh_nft : NftBackend
fresh_nft = record {
  tcp_cache = [];
  udp_cache = [];
  sctp_cache = [];
  trusted_cache = [];
  tcp_syn_rate_cache = [];
  tcp_syn_agg_rate_cache = [];
  tcp_conn_limit_cache = [];
  tcp_conn_prefix_limit_cache = [];
  tcp_conn_port_limit_cache = [];
  udp_rate_cache = [];
  udp_agg_rate_cache = [];
  acl_cache = [];
  bogon_cache = none;
  drop_events_cache = none;
  udp_global_byte_rate_cache = none;
  seen_signature = none;
  installed = none;
}

-- a dry run, and a round that installs the policy
abbrev sample_rounds : List Round
sample_rounds =
    record { cfg = sample_render; desired = two_ports_again; dry_run = true }
    ∷ record { cfg = sample_render; desired = two_ports_again; dry_run = false }
    ∷ []

abbrev commits_all : Option String → String → Bool
commits_all held script = true

two_ports_script : String
two_ports_script =
    script_of sample_render true (render_blocks texts_only sample_render two_ports [] [])
      (render_rules texts_only sample_render two_ports)

two_ports_renders : render_ruleset texts_only sample_render two_ports true ≡ some two_ports_script
unfolding render_ruleset collapse_cidrs sort filter two_ports_script
two_ports_renders = refl

run_rounds_enforce_example :
    IsEnforced texts_only commits_all sample_render two_ports two_ports_script (
      apply_nft_plan texts_only commits_all sample_render two_ports false
        (run_rounds texts_only commits_all sample_rounds fresh_nft))
run_rounds_enforce_example =
    run_rounds_enforce texts_only commits_all sample_rounds fresh_nft sample_render two_ports
      two_ports_script refl (two_ports_again-IsDesired, refl, (two_ports_again-IsDesired, refl, tt))
      two_ports-IsDesired two_ports_renders refl

commits_none : Option String → String → Bool
commits_none held script = false

-- nft refuses the script
apply_nft_plan_atomic_example :
    backend_of (apply_nft_plan texts_only commits_none sample_render two_ports false fresh_nft)
    ≡ fresh_nft
unfolding apply_nft_plan install_ruleset commits_none
apply_nft_plan_atomic_example =
    apply_nft_plan_atomic texts_only commits_none sample_render two_ports false fresh_nft fresh_nft
      (inr (rw two_ports_renders refl))
