-- ===== src/Nft/Apply.antt =====
-- `NftablesBackend` of auto_xdp/backends/nftables.py: its caches, and a round of it. The kernel has
-- the last script that nft installed_new; whether nft commits a script in the presence of another one is
-- the parameter `commits`, and a transaction that fails changes nothing. The backend starts with a
-- ruleset that may be an older one.
pub mod Agreement
pub mod Atomic
pub mod Rounds
use auto_xdp.Base.{
  Bool, Dict, List, Option, String, [], bool_key, if◌then◌else◌, list_key, nat_key, none, not,
  option_key, pair_key, some, string_key, true, ℕ, ◌==◌,
}
use auto_xdp.Nft.{Cidrs}
use auto_xdp.Nft.Render.{RenderConfig, render_ruleset}
use auto_xdp.Nft.Signature.{Signature, policy_signature}
use auto_xdp.State.{AclRules, AppliedState, DesiredState}

pub record NftBackend : Type 0 where
  pub tcp_cache : List ℕ
  pub udp_cache : List ℕ
  pub sctp_cache : List ℕ
  pub trusted_cache : List String
  pub tcp_syn_rate_cache : Dict ℕ ℕ
  pub tcp_syn_agg_rate_cache : Dict ℕ ℕ
  pub tcp_conn_limit_cache : Dict ℕ ℕ
  pub tcp_conn_prefix_limit_cache : Dict ℕ ℕ
  pub tcp_conn_port_limit_cache : Dict ℕ ℕ
  pub udp_rate_cache : Dict ℕ ℕ
  pub udp_agg_rate_cache : Dict ℕ ℕ
  pub acl_cache : AclRules
  pub bogon_cache : Option Bool
  pub drop_events_cache : Option Bool
  pub udp_global_byte_rate_cache : Option ℕ
  pub seen_signature : Option Signature
  pub installed : Option String

-- `AppliedState` with the defaults of the fields that the backend does not keep
unfoldable pub nft_applied_state : NftBackend → AppliedState
nft_applied_state b = record {
  tcp_ports = b.tcp_cache;
  udp_ports = b.udp_cache;
  sctp_ports = b.sctp_cache;
  trusted_cidrs = b.trusted_cache;
  conntrack_entries = [];
  tcp_syn_rate_limits = b.tcp_syn_rate_cache;
  tcp_syn_agg_rate_limits = b.tcp_syn_agg_rate_cache;
  tcp_conn_limits = b.tcp_conn_limit_cache;
  tcp_conn_prefix_limits = b.tcp_conn_prefix_limit_cache;
  tcp_conn_port_limits = b.tcp_conn_port_limit_cache;
  udp_rate_limits = b.udp_rate_cache;
  udp_agg_rate_limits = b.udp_agg_rate_cache;
  acl_rules = b.acl_cache;
  bogon_filter_enabled = b.bogon_cache;
  drop_events_enabled = b.drop_events_cache;
  rate_limit_source_prefix_v4 = 32;
  rate_limit_source_prefix_v6 = 128;
  udp_global_byte_rate = b.udp_global_byte_rate_cache;
  xdp_runtime_config = none;
}

unfoldable pub remember_desired : RenderConfig → DesiredState → NftBackend → NftBackend
remember_desired cfg desired b = record b {
  tcp_cache = desired.tcp_ports;
  udp_cache = desired.udp_ports;
  sctp_cache = desired.sctp_ports;
  trusted_cache = desired.trusted_cidrs;
  tcp_syn_rate_cache = desired.tcp_syn_rate_limits;
  tcp_syn_agg_rate_cache = desired.tcp_syn_agg_rate_limits;
  tcp_conn_limit_cache = desired.tcp_conn_limits;
  tcp_conn_prefix_limit_cache = desired.tcp_conn_prefix_limits;
  tcp_conn_port_limit_cache = desired.tcp_conn_port_limits;
  udp_rate_cache = desired.udp_rate_limits;
  udp_agg_rate_cache = desired.udp_agg_rate_limits;
  acl_cache = desired.acl_rules;
  bogon_cache = some desired.bogon_filter_enabled;
  drop_events_cache = some desired.drop_events_enabled;
  udp_global_byte_rate_cache = some desired.udp_global_byte_rate;
  seen_signature = some (policy_signature cfg desired);
}

-- how a call ends, with the backend it leaves
pub data RoundEnd : Type 0 where
  returned : NftBackend → RoundEnd
  raised : NftBackend → RoundEnd

module _ (ipaddress : Cidrs) (commits : Option String → String → Bool) where
  -- the rest of `_install_ruleset` once the script was rendered; a ValueError leaves it
  abbrev pub run_script : Bool → NftBackend → Option String → RoundEnd
  run_script dry_run b none = raised b
  run_script dry_run b (some script) =
      if dry_run
      then returned b
      else if commits b.installed script
      then returned (record b { installed = some script })
      else raised b

  -- the script is rendered, and may raise, also in a dry run
  unfoldable pub install_ruleset : RenderConfig → DesiredState → Bool → Bool → NftBackend → RoundEnd
  install_ruleset cfg desired replace dry_run b =
      run_script dry_run b (render_ruleset ipaddress cfg desired replace)

  abbrev pub then_remember : RenderConfig → DesiredState → Bool → RoundEnd → RoundEnd
  then_remember cfg desired dry_run (returned b) =
      if not dry_run then returned (remember_desired cfg desired b) else returned b
  then_remember cfg desired dry_run (raised b) = raised b

  -- the plan and the observed state are not read
  unfoldable pub apply_nft_plan : RenderConfig → DesiredState → Bool → NftBackend → RoundEnd
  apply_nft_plan cfg desired dry_run b =
      let ended = install_ruleset cfg desired true dry_run b in
      if some (policy_signature cfg desired) == b.seen_signature
      then returned b
      else then_remember cfg desired dry_run ended
