-- ===== src/Nft/Signature.antt =====
-- `_policy_signature` of the nftables backend: by it the backend sees that nothing has changed.
pub mod Same
pub mod Script
use auto_xdp.Base.{
  Bool, List, String, bool_key, leb, list_key, map, nat_key, option_key, pair_key, sort, string_key,
  text_leb, ℕ,
}
use auto_xdp.Nft.Render.{RenderConfig}
use auto_xdp.Nft.Rules.{item_leb, key_leb}
use auto_xdp.State.{DesiredState}

-- A `frozenset` is its elements in order, the items of a dict likewise. The parts stand in the
-- order of the tuple, as nested pairs.
abbrev pub Items : Type 0
Items = List (ℕ × ℕ)

abbrev pub AclTriples : Type 0
AclTriples = List ((String × String) × List ℕ)

abbrev pub Ports : Type 0
Ports = List ℕ × (List ℕ × (List ℕ × List String))

abbrev pub LimitItems : Type 0
LimitItems = Items × (Items × (Items × (Items × (Items × (Items × Items)))))

abbrev pub PolicySwitches : Type 0
PolicySwitches = AclTriples × (Bool × (Bool × (ℕ × (ℕ × ℕ))))

abbrev pub Settings : Type 0
Settings = List String × (String × (String × String))

abbrev pub Signature : Type 0
Signature = Ports × (LimitItems × (PolicySwitches × Settings))

abbrev pub triple : (String × String) × List ℕ → (String × String) × List ℕ
triple (key, ports) = (key, sort leb ports)

abbrev pub ports_part : DesiredState → Ports
ports_part desired = (
  sort leb desired.tcp_ports,
  (sort leb desired.udp_ports, (sort leb desired.sctp_ports, sort text_leb desired.trusted_cidrs)),
)

abbrev pub limits_part : DesiredState → LimitItems
limits_part desired = (
  sort item_leb desired.tcp_syn_rate_limits,
  (
    sort item_leb desired.tcp_syn_agg_rate_limits,
    (
      sort item_leb desired.tcp_conn_limits,
      (
        sort item_leb desired.tcp_conn_prefix_limits,
        (
          sort item_leb desired.tcp_conn_port_limits,
          (sort item_leb desired.udp_rate_limits, sort item_leb desired.udp_agg_rate_limits),
        ),
      ),
    ),
  ),
)

abbrev pub switches_part : DesiredState → PolicySwitches
switches_part desired = (
  map triple (sort key_leb desired.acl_rules),
  (
    desired.bogon_filter_enabled,
    (
      desired.drop_events_enabled,
      (
        desired.rate_limit_source_prefix_v4,
        (desired.rate_limit_source_prefix_v6, desired.udp_global_byte_rate),
      ),
    ),
  ),
)

abbrev pub settings_part : RenderConfig → Settings
settings_part cfg =
    (cfg.sit4_endpoints, (cfg.slot_default_action, (cfg.table.nft_family, cfg.table.nft_table)))

unfoldable pub policy_signature : RenderConfig → DesiredState → Signature
policy_signature cfg desired =
    (ports_part desired, (limits_part desired, (switches_part desired, settings_part cfg)))
