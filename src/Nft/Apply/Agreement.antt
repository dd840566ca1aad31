-- ===== src/Nft/Apply/Agreement.antt =====
-- A state that is in place for one policy is in place for every policy of the same signature.
use mathlib.Core.Option
use auto_xdp.Base.{
  Bool, Dict, IsDict, Key, List, Option, String, [], ap, arith, bool_key, contains, contains-sort,
  leb, list_key, lookup, lookup-sort, map, nat_key, none, option_key, pair_key, refl, some, sort,
  string_key, sym, text_leb, ℕ, ◌∙◌, ◌∷◌, ◌≡◌,
}
use auto_xdp.Nft.Apply.{NftBackend, nft_applied_state, remember_desired}
use auto_xdp.Nft.Render.{RenderConfig}
use auto_xdp.Nft.Rules.{item_leb, key_leb}
use auto_xdp.Nft.Signature.{policy_signature, triple}
use auto_xdp.State.{AclRules, AppliedState, DesiredState}
use auto_xdp.State.Plan.{SamePorts}
use auto_xdp.State.Reached.{Agrees, IsDesired}

-- the nftables backend leaves the flows to the kernel
abbrev pub flowless : DesiredState → DesiredState
flowless d = record d { conntrack_entries = [] }

contains_same :
    {K : Type 0} ⦃k : Key K⦄ (before : K → K → Bool) (x : K) (s s' : List K)
    → sort before s ≡ sort before s'
    → contains x s ≡ contains x s'
contains_same before x s s' e =
    sym (contains-sort before x s) ∙ ap (contains x) e ∙ contains-sort before x s'

lookup_same :
    (i : ℕ) (d d' : Dict ℕ ℕ)
    → IsDict d
    → IsDict d'
    → sort item_leb d ≡ sort item_leb d'
    → lookup i d ≡ lookup i d'
lookup_same i d d' h h' e =
    sym (lookup-sort item_leb i d h) ∙ ap (lookup i) e ∙ lookup-sort item_leb i d' h'

lookup-triple :
    (i : String × String) (rules : AclRules)
    → lookup i (map triple rules) ≡ Option.map (sort leb) (lookup i rules)
unfolding lookup
lookup-triple i [] = refl
lookup-triple i ((j, ports) ∷ rules) = ground (arith, lookup-triple i rules)

SamePorts-sort :
    (held p q : Option (List ℕ))
    → Option.map (sort leb) p ≡ Option.map (sort leb) q
    → SamePorts held p
    → SamePorts held q
SamePorts-sort none none none e h = h
SamePorts-sort none none (some q) e h = absurd (cc)
SamePorts-sort none (some p) q e h = absurd h
SamePorts-sort (some held) none q e h = absurd h
SamePorts-sort (some held) (some p) none e h = absurd (cc)
SamePorts-sort (some held) (some p) (some q) e h = λ x. h x ∙ contains_same leb x p q (cc)

acl_same :
    (held : Option (List ℕ)) (i : String × String) (d d' : AclRules)
    → IsDict d
    → IsDict d'
    → map triple (sort key_leb d) ≡ map triple (sort key_leb d')
    → SamePorts held (lookup i d)
    → SamePorts held (lookup i d')
acl_same held i d d' h h' e = SamePorts-sort held (lookup i d) (lookup i d') (
    ap (Option.map (sort leb)) (sym (lookup-sort key_leb i d h))
    ∙ sym (lookup-triple i (sort key_leb d))
    ∙ ap (lookup i) e
    ∙ lookup-triple i (sort key_leb d')
    ∙ ap (Option.map (sort leb)) (lookup-sort key_leb i d' h'))

SamePorts-refl : (p : Option (List ℕ)) → SamePorts p p
SamePorts-refl none = tt
SamePorts-refl (some p) = λ x. refl

pub Agrees-signature :
    (cfg cfg' : RenderConfig) (d d' : DesiredState) (a : AppliedState)
    → IsDesired d
    → IsDesired d'
    → policy_signature cfg d ≡ policy_signature cfg' d'
    → Agrees (flowless d) a
    → Agrees (flowless d') a
unfolding policy_signature
Agrees-signature cfg cfg' d d' a h h' e g = record {
  tcp_ports = λ x. g.tcp_ports x ∙ contains_same leb x d.tcp_ports d'.tcp_ports (ap (λ s. s.0.0) e);
  udp_ports =
      λ x. g.udp_ports x ∙ contains_same leb x d.udp_ports d'.udp_ports (ap (λ s. s.0.1.0) e);
  sctp_ports =
      λ x. g.sctp_ports x ∙ contains_same leb x d.sctp_ports d'.sctp_ports (ap (λ s. s.0.1.1.0) e);
  trusted_cidrs = λ x.
      g.trusted_cidrs x
      ∙ contains_same text_leb x d.trusted_cidrs d'.trusted_cidrs (ap (λ s. s.0.1.1.1) e);
  conntrack_entries = g.conntrack_entries;
  tcp_syn_rate_limits = λ i.
      g.tcp_syn_rate_limits i
      ∙ lookup_same i d.tcp_syn_rate_limits d'.tcp_syn_rate_limits h.tcp_syn_rate_limits
          h'.tcp_syn_rate_limits (ap (λ s. s.1.0.0) e);
  tcp_syn_agg_rate_limits = λ i.
      g.tcp_syn_agg_rate_limits i
      ∙ lookup_same i d.tcp_syn_agg_rate_limits d'.tcp_syn_agg_rate_limits h.tcp_syn_agg_rate_limits
          h'.tcp_syn_agg_rate_limits (ap (λ s. s.1.0.1.0) e);
  tcp_conn_limits = λ i.
      g.tcp_conn_limits i
      ∙ lookup_same i d.tcp_conn_limits d'.tcp_conn_limits h.tcp_conn_limits h'.tcp_conn_limits
          (ap (λ s. s.1.0.1.1.0) e);
  tcp_conn_prefix_limits = λ i.
      g.tcp_conn_prefix_limits i
      ∙ lookup_same i d.tcp_conn_prefix_limits d'.tcp_conn_prefix_limits h.tcp_conn_prefix_limits
          h'.tcp_conn_prefix_limits (ap (λ s. s.1.0.1.1.1.0) e);
  tcp_conn_port_limits = λ i.
      g.tcp_conn_port_limits i
      ∙ lookup_same i d.tcp_conn_port_limits d'.tcp_conn_port_limits h.tcp_conn_port_limits
          h'.tcp_conn_port_limits (ap (λ s. s.1.0.1.1.1.1.0) e);
  udp_rate_limits = λ i.
      g.udp_rate_limits i
      ∙ lookup_same i d.udp_rate_limits d'.udp_rate_limits h.udp_rate_limits h'.udp_rate_limits
          (ap (λ s. s.1.0.1.1.1.1.1.0) e);
  udp_agg_rate_limits = λ i.
      g.udp_agg_rate_limits i
      ∙ lookup_same i d.udp_agg_rate_limits d'.udp_agg_rate_limits h.udp_agg_rate_limits
          h'.udp_agg_rate_limits (ap (λ s. s.1.0.1.1.1.1.1.1) e);
  acl_rules = λ i.
      acl_same (lookup i a.acl_rules) i d.acl_rules d'.acl_rules h.acl_rules h'.acl_rules
        (ap (λ s. s.1.1.0.0) e) (g.acl_rules i);
  bogon_filter_enabled = g.bogon_filter_enabled ∙ ap (λ s. some s.1.1.0.1.0) e;
  drop_events_enabled = g.drop_events_enabled ∙ ap (λ s. some s.1.1.0.1.1.0) e;
  udp_global_byte_rate = g.udp_global_byte_rate ∙ ap (λ s. some s.1.1.0.1.1.1.1.1) e;
}

pub remember_desired-Agrees :
    (cfg : RenderConfig) (d : DesiredState) (b : NftBackend)
    → Agrees (flowless d) (nft_applied_state (remember_desired cfg d b))
unfolding nft_applied_state remember_desired
remember_desired-Agrees cfg d b = record {
  tcp_ports = λ x. refl;
  udp_ports = λ x. refl;
  sctp_ports = λ x. refl;
  trusted_cidrs = λ x. refl;
  conntrack_entries = λ x. refl;
  tcp_syn_rate_limits = λ i. refl;
  tcp_syn_agg_rate_limits = λ i. refl;
  tcp_conn_limits = λ i. refl;
  tcp_conn_prefix_limits = λ i. refl;
  tcp_conn_port_limits = λ i. refl;
  udp_rate_limits = λ i. refl;
  udp_agg_rate_limits = λ i. refl;
  acl_rules = λ i. SamePorts-refl (lookup i d.acl_rules);
  bogon_filter_enabled = refl;
  drop_events_enabled = refl;
  udp_global_byte_rate = refl;
}
