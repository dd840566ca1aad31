-- ===== src/ConfigFile/Globals.antt =====
-- The other globals of auto_xdp/config.py, by section, the parser in place, and `apply_toml_config`,
-- which puts the globals back when the parser raises. The paths of the maps follow from the
-- directory and are left out.
use Prim.Native.Char.{code}
use auto_xdp.Base.{
  List, String, [], bool_key, false, if◌then◌else◌, list_key, map, nat_key, not, option_key,
  pair_key, string_key, true, ℕ, ◌&&◌, ◌==◌, ◌∷◌,
}
use auto_xdp.Config.{Float}
use auto_xdp.ConfigFile.{
  Load, Python, Toml, array, as_bool, as_int, beyond, coerce_backend, coerce_log_level,
  coerce_nonnegative_float, coerce_positive_float, coerce_positive_int, coerce_prefix_len,
  empty_table, get, int_limit, item, loaded, no_item, raises, real, text, truth, whole, ◌>>=◌,
}
use auto_xdp.ConfigFile.Records.{AbuseSettings, Globals, Protection, Rates, Runtime, Switches}
use auto_xdp.ConfigFile.Sections.{
  acl_section, discovery_section, limits_section, ports_section, trusted_section, tunnel_section,
}
use auto_xdp.ConfigFile.Tables.{Tables, clear, items_list}

-- `text.rstrip("/")`
unfoldable pub rstrip_slash : String → String
rstrip_slash String.[] = String.[]
rstrip_slash (String.◌∷◌ c s) =
    let rest = rstrip_slash s in
    if rest == "" && code c == b'/' then String.[] else String.◌∷◌ c rest

-- What `apply_toml_config` leaves in the globals: the new configuration, or the snapshot, where the
-- exception is raised again. `outside` is a file beyond the model.
pub data Applied (F : Float) : Type 0 where
  applied : Globals F → Applied F
  rejected : Globals F → Applied F
  outside : Applied F

module _ {F : Float} (python : Python F) where
  -- `int(rl.get(name, default))`
  unfoldable pub int_entry : String → Toml F.Val → ℕ → Load ℕ
  int_entry name section default = do
    value ← get name section (whole default)
    int_limit (as_int python value)

  unfoldable pub positive_entry : String → Toml F.Val → ℕ → Load ℕ
  positive_entry name section default = do
    value ← get name section (whole default)
    coerce_positive_int python value default

  unfoldable pub nonnegative_entry : String → Toml F.Val → F.Val → Load F.Val
  nonnegative_entry name section default = do
    value ← get name section (real default)
    coerce_nonnegative_float python value default

  -- the newer name of the entry, or the older one
  unfoldable pub prefix_entry : String → String → Toml F.Val → ℕ → Load ℕ
  prefix_entry name old_name rl maximum = do
    old_value ← get old_name rl (whole maximum)
    value ← get name rl old_value
    coerce_prefix_len python value maximum maximum

  unfoldable pub rates_section : Toml F.Val → Load Rates
  rates_section rl = do
    prefix4 ← prefix_entry "source_cidr_v4" "source_prefix_v4" rl 32
    prefix6 ← prefix_entry "source_cidr_v6" "source_prefix_v6" rl 128
    entries4 ← int_entry "map_entries_v4" rl 16384
    entries6 ← int_entry "map_entries_v6" rl 4096
    loaded (record {
      rate_limit_source_prefix_v4 = prefix4;
      rate_limit_source_prefix_v6 = prefix6;
      rate_map_entries_v4 = entries4;
      rate_map_entries_v6 = entries6;
    })

  unfoldable pub switches_section : Toml F.Val → Load (Switches F)
  switches_section cfg = do
    firewall ← get "firewall" cfg empty_table
    bogon ← get "bogon_filter" firewall (truth true)
    attack ← get "under_attack" cfg empty_table
    attacked ← get "enabled" attack (truth false)
    daemon ← get "daemon" cfg empty_table
    level ← get "log_level" daemon (text "warning")
    debounce ← get "debounce_seconds" daemon (real (python.literal 0 4))
    debounce_seconds ← coerce_positive_float python debounce (python.literal 0 4)
    backend ← get "preferred_backend" daemon (text "auto")
    discovery ← get "discovery" cfg empty_table
    on_loopback ← get "exclude_loopback" discovery (truth true)
    xdp ← get "xdp" cfg empty_table
    pin_dir ← get "bpf_pin_dir" xdp (text "/sys/fs/bpf/xdp_fw")
    nftables ← get "nftables" cfg empty_table
    family ← get "family" nftables (text "inet")
    name ← get "table" nftables (text "auto_xdp")
    slots ← get "slots" cfg empty_table
    action ← get "default_action" slots (text "drop")
    loaded (record {
      bogon_filter_enabled = as_bool python bogon;
      isattack_mode = as_bool python attacked;
      drop_events_enabled = not (as_bool python attacked);
      log_level = coerce_log_level python level;
      debounce_seconds = debounce_seconds;
      preferred_backend = coerce_backend python backend;
      exclude_loopback = as_bool python on_loopback;
      bpf_pin_dir = rstrip_slash (python.str_of pin_dir);
      nft_family = python.str_of family;
      nft_table = python.str_of name;
      slot_default_action =
          if python.lower (python.str_of action) == "drop" then "drop" else "pass";
    })

  unfoldable pub runtime_section : Toml F.Val → Toml F.Val → Load (Runtime F)
  runtime_section xdp run_cfg = do
    stale ← positive_entry "conntrack_stale_reconciles" xdp 2
    tcp ← nonnegative_entry "tcp_timeout_seconds" run_cfg (python.literal 300 0)
    udp ← nonnegative_entry "udp_timeout_seconds" run_cfg (python.literal 60 0)
    refresh ← nonnegative_entry "conntrack_refresh_seconds" run_cfg (python.literal 30 0)
    gc ← nonnegative_entry "conntrack_gc_interval_seconds" run_cfg (python.literal 300 0)
    burst ← positive_entry "icmp_burst_packets" run_cfg 100
    pps ← nonnegative_entry "icmp_rate_pps" run_cfg (python.literal 100 0)
    udp_window ← nonnegative_entry "udp_global_window_seconds" run_cfg (python.literal 1 0)
    rate_window ← nonnegative_entry "rate_window_seconds" run_cfg (python.literal 1 0)
    syn ← nonnegative_entry "syn_timeout_seconds" run_cfg (python.literal 30 0)
    mbps ← nonnegative_entry "udp_global_byte_rate_mbps" run_cfg (python.literal 0 0)
    byte_rate ← int_limit (python.byte_rate mbps)
    loaded (record {
      xdp_conntrack_stale_reconciles = stale;
      xdp_tcp_timeout_seconds = tcp;
      xdp_udp_timeout_seconds = udp;
      xdp_conntrack_refresh_seconds = refresh;
      xdp_conntrack_gc_interval_seconds = gc;
      xdp_icmp_burst_packets = burst;
      xdp_icmp_rate_pps = pps;
      xdp_udp_global_window_seconds = udp_window;
      xdp_rate_window_seconds = rate_window;
      xdp_syn_timeout_seconds = syn;
      xdp_udp_global_byte_rate = byte_rate;
    })

  unfoldable pub protection_section : Toml F.Val → Load Protection
  protection_section run_cfg = do
    threshold ← positive_entry "sensitive_port_threshold" run_cfg 5
    syn_strict ← positive_entry "default_tcp_syn_rate_strict" run_cfg 5
    syn ← positive_entry "default_tcp_syn_rate" run_cfg 100
    agg_strict ← positive_entry "default_tcp_syn_agg_rate_strict" run_cfg 50
    agg ← positive_entry "default_tcp_syn_agg_rate" run_cfg 1000
    src_strict ← positive_entry "default_tcp_established_per_src_strict" run_cfg 5
    src ← positive_entry "default_tcp_established_per_src" run_cfg 50
    prefix_strict ← positive_entry "default_tcp_established_per_prefix_strict" run_cfg 20
    prefix ← positive_entry "default_tcp_established_per_prefix" run_cfg 200
    port_strict ← positive_entry "default_tcp_established_per_port_strict" run_cfg 200
    port ← positive_entry "default_tcp_established_per_port" run_cfg 5000
    loaded (record {
      xdp_sensitive_port_threshold = threshold;
      xdp_default_tcp_syn_rate_strict = syn_strict;
      xdp_default_tcp_syn_rate = syn;
      xdp_default_tcp_syn_agg_rate_strict = agg_strict;
      xdp_default_tcp_syn_agg_rate = agg;
      xdp_default_tcp_established_per_src_strict = src_strict;
      xdp_default_tcp_established_per_src = src;
      xdp_default_tcp_established_per_prefix_strict = prefix_strict;
      xdp_default_tcp_established_per_prefix = prefix;
      xdp_default_tcp_established_per_port_strict = port_strict;
      xdp_default_tcp_established_per_port = port;
    })

  abbrev pub base_url : String
  base_url = "https://raw.githubusercontent.com/borestad/blocklist-abuseipdb/refs/heads/main"

  -- the texts of a list; anything else gives the default
  abbrev pub sources_of : Toml F.Val → List String
  sources_of (array xs) = map python.str_of (items_list xs)
  sources_of value = "s1003d" ∷ []

  unfoldable pub abuse_section : Toml F.Val → Load (AbuseSettings F)
  abuse_section cfg = do
    ab ← get "abuseipdb" cfg empty_table
    enabled ← get "enabled" ab (truth false)
    url ← get "base_url" ab (text base_url)
    sources ← get "sources" ab (array (item (text "s1003d") no_item))
    refresh ← get "refresh_seconds" ab (real (python.literal 3600 0))
    refresh_seconds ← coerce_positive_float python refresh (python.literal 3600 0)
    loaded (record {
      abuseipdb_enabled = as_bool python enabled;
      abuseipdb_base_url = python.str_of url;
      abuseipdb_sources = sources_of sources;
      abuseipdb_refresh_seconds = refresh_seconds;
    })

  unfoldable pub tables_section : Toml F.Val → Tables → Load Tables
  tables_section cfg t = do
    t1 ← ports_section python cfg t
    t2 ← trusted_section python cfg t1
    t3 ← tunnel_section python cfg t2
    t4 ← acl_section python cfg t3
    rl ← get "rate_limits" cfg empty_table
    t5 ← limits_section python rl t4
    discovery ← get "discovery" cfg empty_table
    discovery_section python discovery t5

  -- What the parser leaves in the globals when it raises is not kept: its caller overwrites all of
  -- them.
  unfoldable pub apply_toml_config_in_place : Toml F.Val → Globals F → Load (Globals F)
  apply_toml_config_in_place cfg g = do
    tables ← tables_section cfg (clear g.tables)
    rl ← get "rate_limits" cfg empty_table
    rates ← rates_section rl
    switches ← switches_section cfg
    xdp ← get "xdp" cfg empty_table
    run_cfg ← get "runtime" xdp empty_table
    runtime ← runtime_section xdp run_cfg
    protection ← protection_section run_cfg
    abuse ← abuse_section cfg
    loaded (record g {
      tables = tables;
      rates = rates;
      switches = switches;
      runtime = runtime;
      protection = protection;
      abuse = abuse;
    })

  -- the end of `apply_toml_config`, with the snapshot of the globals
  unfoldable pub restored : Globals F → Load (Globals F) → Applied F
  restored snapshot (loaded g) = applied g
  restored snapshot raises = rejected snapshot
  restored snapshot beyond = outside

  unfoldable pub apply_toml_config : Toml F.Val → Globals F → Applied F
  apply_toml_config cfg g = restored g (apply_toml_config_in_place cfg g)
