-- ===== src/Nft/Signature/Same.antt =====
-- Equal signatures are equal policies: what the nftables backend would write is the same text.
use auto_xdp.Base.{
  Bool, Dict, IsDict, List, String, [], any, any-sort, ap, arith, bool_eq, bool_key, false, filter,
  get_or, if◌then◌else◌, leb, list_key, lookup, lookup-sort, ltb, map, nat_key, not, option_key,
  pair_key, place, refl, sort, sort-filter, string_key, sym, text_leb, text_leb_total,
  text_leb_trans, ℕ, ◌==◌, ◌||◌, ◌∙◌, ◌∷◌, ◌≡◌,
}
use auto_xdp.Bpf.Kernel.{has_colon}
use auto_xdp.Nft.{Cidrs, limit_of}
use auto_xdp.Nft.Render.{has_port_limit, trusted_of}
use auto_xdp.Nft.Rules.{
  acl_lines, acl_rule, for_ports, item_leb, key_leb, nft_acl_rules, source_prefix, tcp_objects_of,
  tcp_policy_objects, tcp_policy_rules, tcp_rules_of, udp_policy_rules, udp_rules_of,
}
use auto_xdp.Nft.Signature.{limits_part, ports_part, switches_part, triple}
use auto_xdp.State.{AclRules, DesiredState}
use auto_xdp.State.Reached.{IsDesired}

-- two wanted states that the script does not tell apart
pub record Same (d d' : DesiredState) : Type 0 where
  pub ports : ports_part d ≡ ports_part d'
  pub syn_rates : (p : ℕ) → limit_of d.tcp_syn_rate_limits p ≡ limit_of d'.tcp_syn_rate_limits p
  pub syn_agg_rates :
      (p : ℕ) → limit_of d.tcp_syn_agg_rate_limits p ≡ limit_of d'.tcp_syn_agg_rate_limits p
  pub conns : (p : ℕ) → limit_of d.tcp_conn_limits p ≡ limit_of d'.tcp_conn_limits p
  pub conn_prefixes :
      (p : ℕ) → limit_of d.tcp_conn_prefix_limits p ≡ limit_of d'.tcp_conn_prefix_limits p
  pub conn_ports : (p : ℕ) → limit_of d.tcp_conn_port_limits p ≡ limit_of d'.tcp_conn_port_limits p
  pub udp_rates : (p : ℕ) → limit_of d.udp_rate_limits p ≡ limit_of d'.udp_rate_limits p
  pub udp_agg_rates : (p : ℕ) → limit_of d.udp_agg_rate_limits p ≡ limit_of d'.udp_agg_rate_limits p
  pub switches : switches_part d ≡ switches_part d'

pub limit_of_same :
    (limits limits' : Dict ℕ ℕ)
    → IsDict limits
    → IsDict limits'
    → sort item_leb limits ≡ sort item_leb limits'
    → (p : ℕ) → limit_of limits p ≡ limit_of limits' p
limit_of_same limits limits' h h' e p =
    ap (λ o. get_or o 0)
      (sym (lookup-sort item_leb p limits h) ∙ ap (lookup p) e ∙ lookup-sort item_leb p limits' h')

pub Same-limits :
    (d d' : DesiredState)
    → IsDesired d
    → IsDesired d'
    → ports_part d ≡ ports_part d'
    → limits_part d ≡ limits_part d'
    → switches_part d ≡ switches_part d'
    → Same d d'
Same-limits d d' h h' e f g = record {
  ports = e;
  syn_rates =
      limit_of_same d.tcp_syn_rate_limits d'.tcp_syn_rate_limits h.tcp_syn_rate_limits
        h'.tcp_syn_rate_limits (ap (λ l. l.0) f);
  syn_agg_rates =
      limit_of_same d.tcp_syn_agg_rate_limits d'.tcp_syn_agg_rate_limits h.tcp_syn_agg_rate_limits
        h'.tcp_syn_agg_rate_limits (ap (λ l. l.1.0) f);
  conns =
      limit_of_same d.tcp_conn_limits d'.tcp_conn_limits h.tcp_conn_limits h'.tcp_conn_limits
        (ap (λ l. l.1.1.0) f);
  conn_prefixes =
      limit_of_same d.tcp_conn_prefix_limits d'.tcp_conn_prefix_limits h.tcp_conn_prefix_limits
        h'.tcp_conn_prefix_limits (ap (λ l. l.1.1.1.0) f);
  conn_ports =
      limit_of_same d.tcp_conn_port_limits d'.tcp_conn_port_limits h.tcp_conn_port_limits
        h'.tcp_conn_port_limits (ap (λ l. l.1.1.1.1.0) f);
  udp_rates =
      limit_of_same d.udp_rate_limits d'.udp_rate_limits h.udp_rate_limits h'.udp_rate_limits
        (ap (λ l. l.1.1.1.1.1.0) f);
  udp_agg_rates =
      limit_of_same d.udp_agg_rate_limits d'.udp_agg_rate_limits h.udp_agg_rate_limits
        h'.udp_agg_rate_limits (ap (λ l. l.1.1.1.1.1.1) f);
  switches = g;
}

sort_is_empty : (ports : List ℕ) → (sort leb ports == []) ≡ (ports == [])
unfolding sort place
sort_is_empty [] = refl
sort_is_empty (p ∷ ports) = placed (sort leb ports)
  where
    placed : (s : List ℕ) → (place leb p s == []) ≡ false
    placed [] = refl
    placed (q ∷ s) = ground arith

-- the lines of the ACL read each rule with its ports in order
with_line : String → ℕ → (String × String) × List ℕ → List String → List String
with_line proto family ((rule_proto, cidr), ports) rest =
    if not (rule_proto == proto) || not (bool_eq (has_colon cidr) (family == 6)) || ports == []
    then rest
    else acl_rule proto family cidr ports ∷ rest

acl_lines-cons :
    (proto : String) (family : ℕ) (r : (String × String) × List ℕ) (rules : AclRules)
    → acl_lines proto family (r ∷ rules)
      ≡ with_line proto family (triple r) (acl_lines proto family rules)
unfolding acl_lines with_line
acl_lines-cons proto family ((rule_proto, cidr), ports) rules = rw (sort_is_empty ports) refl

acl_lines-triple :
    (proto : String) (family : ℕ) (rules rules' : AclRules)
    → map triple rules ≡ map triple rules'
    → acl_lines proto family rules ≡ acl_lines proto family rules'
acl_lines-triple proto family [] [] e = refl
acl_lines-triple proto family [] (r ∷ rules') e = absurd (cc)
acl_lines-triple proto family (r ∷ rules) [] e = absurd (cc)
acl_lines-triple proto family (r ∷ rules) (r' ∷ rules') e =
    let head : triple r ≡ triple r' = cc in
    let rest = acl_lines-triple proto family rules rules' (cc) in
    acl_lines-cons proto family r rules
    ∙ ap (λ t. with_line proto family t (acl_lines proto family rules)) head
    ∙ ap (with_line proto family (triple r')) rest
    ∙ sym (acl_lines-cons proto family r' rules')

for_ports_ext :
    (f g : ℕ → List String)
    → ((p : ℕ) → f p ≡ g p)
    → (ports : List ℕ) → for_ports f ports ≡ for_ports g ports
unfolding for_ports
for_ports_ext f g h [] = refl
for_ports_ext f g h (p ∷ ports) = rw (h p, for_ports_ext f g h ports) refl

any_ext : (p q : ℕ → Bool) → ((x : ℕ) → p x ≡ q x) → (s : List ℕ) → any p s ≡ any q s
unfolding any
any_ext p q h [] = refl
any_ext p q h (x ∷ s) = rw (h x, any_ext p q h s) refl

module _ (d d' : DesiredState) (same : Same d d') where
  pub nft_acl_rules_same :
      (proto : String) (family : ℕ) → nft_acl_rules d proto family ≡ nft_acl_rules d' proto family
  unfolding nft_acl_rules
  nft_acl_rules_same proto family =
      acl_lines-triple proto family (sort key_leb d.acl_rules) (sort key_leb d'.acl_rules)
        (ap (λ t. t.0) same.switches)

  source_prefix_same : (family : ℕ) → source_prefix d family ≡ source_prefix d' family
  unfolding source_prefix
  source_prefix_same family =
      rw (ap (λ t. t.1.1.1.0) same.switches, ap (λ t. t.1.1.1.1.0) same.switches) refl

  pub tcp_policy_objects_same :
      (family : ℕ) → tcp_policy_objects d family ≡ tcp_policy_objects d' family
  unfolding tcp_policy_objects tcp_objects_of
  tcp_policy_objects_same family =
      for_ports_ext (tcp_objects_of d family) (tcp_objects_of d' family)
        (λ p. rw (same.conns p, same.conn_prefixes p) refl) (sort leb d.tcp_ports)
      ∙ ap (for_ports (tcp_objects_of d' family)) (ap (λ t. t.0) same.ports)

  pub tcp_policy_rules_same :
      (ipaddress : Cidrs) (family : ℕ)
      → tcp_policy_rules ipaddress d family ≡ tcp_policy_rules ipaddress d' family
  unfolding tcp_policy_rules tcp_rules_of
  tcp_policy_rules_same ipaddress family =
      for_ports_ext (tcp_rules_of ipaddress d family) (tcp_rules_of ipaddress d' family)
        (λ p.
          rw
            (
              source_prefix_same family,
              same.syn_rates p,
              same.syn_agg_rates p,
              same.conns p,
              same.conn_prefixes p,
              same.conn_ports p,
            )
            refl)
        (sort leb d.tcp_ports)
      ∙ ap (for_ports (tcp_rules_of ipaddress d' family)) (ap (λ t. t.0) same.ports)

  pub udp_policy_rules_same :
      (ipaddress : Cidrs) (family : ℕ)
      → udp_policy_rules ipaddress d family ≡ udp_policy_rules ipaddress d' family
  unfolding udp_policy_rules udp_rules_of
  udp_policy_rules_same ipaddress family =
      for_ports_ext (udp_rules_of ipaddress d family) (udp_rules_of ipaddress d' family)
        (λ p. rw (source_prefix_same family, same.udp_rates p, same.udp_agg_rates p) refl)
        (sort leb d.udp_ports)
      ∙ ap (for_ports (udp_rules_of ipaddress d' family)) (ap (λ t. t.1.0) same.ports)

  pub any_port_limit_same :
      any (has_port_limit d) d.tcp_ports ≡ any (has_port_limit d') d'.tcp_ports
  unfolding has_port_limit
  any_port_limit_same =
      sym (any-sort leb (has_port_limit d) d.tcp_ports)
      ∙ any_ext (has_port_limit d) (has_port_limit d') (λ p. ap (ltb 0) (same.conn_ports p))
          (sort leb d.tcp_ports)
      ∙ ap (any (has_port_limit d')) (ap (λ t. t.0) same.ports)
      ∙ any-sort leb (has_port_limit d') d'.tcp_ports

  pub trusted_of_same : (on6 : Bool) → trusted_of on6 d ≡ trusted_of on6 d'
  trusted_of_same on6 =
      sort-filter text_leb text_leb_trans text_leb_total (λ cidr. bool_eq (has_colon cidr) on6)
        d.trusted_cidrs
      ∙ ap (filter (λ cidr. bool_eq (has_colon cidr) on6)) (ap (λ t. t.1.1.1) same.ports)
      ∙ sym (
          sort-filter text_leb text_leb_trans text_leb_total (λ cidr. bool_eq (has_colon cidr) on6)
            d'.trusted_cidrs)
