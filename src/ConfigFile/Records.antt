-- ===== src/ConfigFile/Records.antt =====
-- The globals of auto_xdp/config.py that are no tables, by the section that sets them.
-- rate_limits: what is no table
use auto_xdp.Base.{
  Bool, List, String, bool_key, list_key, nat_key, option_key, pair_key, string_key, ℕ,
}
use auto_xdp.Config.{Float}
use auto_xdp.ConfigFile.Tables.{Tables}

pub record Rates : Type 0 where
  pub rate_limit_source_prefix_v4 : ℕ
  pub rate_limit_source_prefix_v6 : ℕ
  pub rate_map_entries_v4 : ℕ
  pub rate_map_entries_v6 : ℕ

pub record Switches (F : Float) : Type 0 where
  pub bogon_filter_enabled : Bool
  pub isattack_mode : Bool
  pub drop_events_enabled : Bool
  pub log_level : String
  pub debounce_seconds : F.Val
  pub preferred_backend : String
  pub exclude_loopback : Bool
  pub bpf_pin_dir : String
  pub nft_family : String
  pub nft_table : String
  pub slot_default_action : String

pub record Runtime (F : Float) : Type 0 where
  pub xdp_conntrack_stale_reconciles : ℕ
  pub xdp_tcp_timeout_seconds : F.Val
  pub xdp_udp_timeout_seconds : F.Val
  pub xdp_conntrack_refresh_seconds : F.Val
  pub xdp_conntrack_gc_interval_seconds : F.Val
  pub xdp_icmp_burst_packets : ℕ
  pub xdp_icmp_rate_pps : F.Val
  pub xdp_udp_global_window_seconds : F.Val
  pub xdp_rate_window_seconds : F.Val
  pub xdp_syn_timeout_seconds : F.Val
  pub xdp_udp_global_byte_rate : ℕ

pub record Protection : Type 0 where
  pub xdp_sensitive_port_threshold : ℕ
  pub xdp_default_tcp_syn_rate_strict : ℕ
  pub xdp_default_tcp_syn_rate : ℕ
  pub xdp_default_tcp_syn_agg_rate_strict : ℕ
  pub xdp_default_tcp_syn_agg_rate : ℕ
  pub xdp_default_tcp_established_per_src_strict : ℕ
  pub xdp_default_tcp_established_per_src : ℕ
  pub xdp_default_tcp_established_per_prefix_strict : ℕ
  pub xdp_default_tcp_established_per_prefix : ℕ
  pub xdp_default_tcp_established_per_port_strict : ℕ
  pub xdp_default_tcp_established_per_port : ℕ

pub record AbuseSettings (F : Float) : Type 0 where
  pub abuseipdb_enabled : Bool
  pub abuseipdb_base_url : String
  pub abuseipdb_sources : List String
  pub abuseipdb_refresh_seconds : F.Val

pub record Globals (F : Float) : Type 0 where
  pub tables : Tables
  pub rates : Rates
  pub switches : Switches F
  pub runtime : Runtime F
  pub protection : Protection
  pub abuse : AbuseSettings F
