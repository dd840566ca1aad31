-- ===== src/Examples/Files.antt =====
-- A small configuration file, over floats that are whole seconds.
use auto_xdp.Base.{
  Option, String, [], bool_key, contains, false, if◌then◌else◌, insert, list_key, lookup, nat_key,
  none, option_key, pair_key, refl, some, split_once, string_key, true, words, ℕ, ◌*◌, ◌==◌, ◌∷◌,
  ◌≡◌,
}
use auto_xdp.Config.{Limits}
use auto_xdp.Config.ServicesFile.{entry_of, read_services, service_map, set_default}
use auto_xdp.ConfigFile.{
  Python, Table, Toml, array, coerce_backend, coerce_log_level, coerce_nonnegative_float,
  coerce_positive_float, coerce_positive_int, coerce_prefix_len, coerce_word, entry, get, get_entry,
  item, minus, natural, no_entry, no_item, table, text, value_error, whole, ◌>>=◌,
}
use auto_xdp.ConfigFile.Globals.{
  Applied, abuse_section, applied, apply_toml_config, apply_toml_config_in_place, int_entry,
  nonnegative_entry, outside, positive_entry, prefix_entry, protection_section, rates_section,
  rejected, restored, rstrip_slash, runtime_section, switches_section, tables_section,
}
use auto_xdp.ConfigFile.Records.{Globals}
use auto_xdp.ConfigFile.Reload.{IsSane, apply_toml_config-IsSane, apply_toml_config_forgets}
use auto_xdp.ConfigFile.Sections.{
  acl_section, discovery_section, limits_of, limits_section, permanent, ports_section,
  trusted_section, tunnel_section, update_limits,
}
use auto_xdp.ConfigFile.Tables.{clear, items_list, items_of, iterate}
use auto_xdp.Samples.{whole_seconds}

abbrev word_of : Toml ℕ → String
word_of (text s) = s
word_of value = "?"

abbrev plain_python : Python whole_seconds
plain_python = record {
  of_natural = some;
  of_negative = λ n. none;
  float_of_text = λ s. none;
  int_of_text = λ s. if s == "24" then natural 24 else value_error;
  trunc = natural;
  literal = λ units tenths. units;
  byte_rate = λ mbps. natural (mbps * 125000);
  is_zero = λ v. v == 0;
  below_zero = λ v. false;
  str_of = word_of;
  lower = λ s. s;
  ipv4_network = some;
  ipv6_network = some;
  ipv4_address = some;
}

abbrev one : String → Toml ℕ → Table ℕ → Toml ℕ
one key value entries = table (entry key value entries)

-- port 22 stays open, a prefix is written with a slash, and a limit is negative
abbrev sample_file : Toml ℕ
sample_file = one "permanent_ports" (one "tcp" (array (item (whole 22) no_item)) no_entry) (
    entry "rate_limits" (one "source_cidr_v4" (text "/24") no_entry) (
      entry "daemon" (one "log_level" (text "loud") no_entry) (
        entry "xdp" (one "runtime" (one "default_tcp_syn_rate" (minus 4) no_entry) no_entry)
          no_entry)))

abbrev applied_or : Globals whole_seconds → Applied whole_seconds → Globals whole_seconds
applied_or g (applied g') = g'
applied_or g (rejected g') = g
applied_or g outside = g

abbrev no_limit : Limits
no_limit = record { by_proc = []; by_service = [] }

abbrev old_globals : Globals whole_seconds
old_globals = record {
  tables = record {
    tcp_permanent = (80, "config") ∷ [];
    udp_permanent = [];
    sctp_permanent = [];
    trusted_src_ips = [];
    acl_rules = [];
    sit4_endpoints = [];
    syn_rate = no_limit;
    syn_agg_rate = no_limit;
    tcp_conn = no_limit;
    tcp_conn_prefix = no_limit;
    tcp_conn_port = no_limit;
    udp_rate = no_limit;
    udp_agg_bytes = no_limit;
    rate_map_entries = no_limit;
    exclude_bind_cidrs = [];
    exclude_ports = [];
  };
  rates = record {
    rate_limit_source_prefix_v4 = 32;
    rate_limit_source_prefix_v6 = 128;
    rate_map_entries_v4 = 1;
    rate_map_entries_v6 = 1;
  };
  switches = record {
    bogon_filter_enabled = true;
    isattack_mode = true;
    drop_events_enabled = false;
    log_level = "info";
    debounce_seconds = 1;
    preferred_backend = "xdp";
    exclude_loopback = true;
    bpf_pin_dir = "/";
    nft_family = "ip";
    nft_table = "t";
    slot_default_action = "pass";
  };
  runtime = record {
    xdp_conntrack_stale_reconciles = 1;
    xdp_tcp_timeout_seconds = 1;
    xdp_udp_timeout_seconds = 1;
    xdp_conntrack_refresh_seconds = 1;
    xdp_conntrack_gc_interval_seconds = 1;
    xdp_icmp_burst_packets = 1;
    xdp_icmp_rate_pps = 1;
    xdp_udp_global_window_seconds = 1;
    xdp_rate_window_seconds = 1;
    xdp_syn_timeout_seconds = 1;
    xdp_udp_global_byte_rate = 1;
  };
  protection = record {
    xdp_sensitive_port_threshold = 1;
    xdp_default_tcp_syn_rate_strict = 1;
    xdp_default_tcp_syn_rate = 1;
    xdp_default_tcp_syn_agg_rate_strict = 1;
    xdp_default_tcp_syn_agg_rate = 1;
    xdp_default_tcp_established_per_src_strict = 1;
    xdp_default_tcp_established_per_src = 1;
    xdp_default_tcp_established_per_prefix_strict = 1;
    xdp_default_tcp_established_per_prefix = 1;
    xdp_default_tcp_established_per_port_strict = 1;
    xdp_default_tcp_established_per_port = 1;
  };
  abuse = record {
    abuseipdb_enabled = true;
    abuseipdb_base_url = "";
    abuseipdb_sources = [];
    abuseipdb_refresh_seconds = 1;
  };
}

new_globals : Globals whole_seconds
new_globals = applied_or old_globals (apply_toml_config plain_python sample_file old_globals)

file_returns : apply_toml_config plain_python sample_file old_globals ≡ applied new_globals
unfolding apply_toml_config apply_toml_config_in_place restored new_globals tables_section ◌>>=◌
    ports_section get permanent get_entry iterate trusted_section items_of tunnel_section
    acl_section limits_section limits_of update_limits discovery_section rates_section prefix_entry
    coerce_prefix_len int_entry insert contains abuse_section nonnegative_entry positive_entry
    protection_section rstrip_slash runtime_section switches_section clear items_list coerce_backend
    coerce_log_level coerce_nonnegative_float coerce_positive_float coerce_positive_int coerce_word
file_returns = refl

apply_toml_config-IsSane_example : IsSane whole_seconds new_globals
apply_toml_config-IsSane_example =
    apply_toml_config-IsSane plain_python sample_file old_globals new_globals file_returns

apply_toml_config_forgets_example :
    ((new : Globals whole_seconds)
      → apply_toml_config plain_python sample_file old_globals ≡ applied new
      → apply_toml_config plain_python sample_file new_globals ≡ applied new)
    × ((kept : Globals whole_seconds)
        → apply_toml_config plain_python sample_file old_globals ≡ rejected kept
        → (kept ≡ old_globals)
          × (apply_toml_config plain_python sample_file new_globals ≡ rejected new_globals))
apply_toml_config_forgets_example =
    apply_toml_config_forgets plain_python sample_file old_globals new_globals

-- a list in the place of a table raises, and the globals are put back
unreadable_file :
    apply_toml_config plain_python (one "rate_limits" (array no_item) no_entry) old_globals
    ≡ rejected old_globals
unfolding apply_toml_config apply_toml_config_in_place restored tables_section ◌>>=◌ ports_section
    get permanent get_entry iterate trusted_section items_of tunnel_section acl_section
    limits_section limits_of update_limits clear items_list
unreadable_file = refl

-- `int` knows two numbers
abbrev sample_port : String → Option ℕ
sample_port digits = if digits == "80" then some 80 else if digits == "22" then some 22 else none

-- a remark, an alias, a second name for a port, a transport that is not looked up, no number
sample_services_file :
    service_map sample_port (
      "# services" ∷ "ssh\t22/tcp # login" ∷ "http 80/tcp www" ∷ "web 80/tcp" ∷ "http 80/sctp"
      ∷ "x x/udp" ∷ "short" ∷ [])
    ≡ (("tcp", 22), "ssh") ∷ (("tcp", 80), "http") ∷ []
unfolding service_map read_services set_default entry_of words split_once contains lookup insert
sample_services_file = refl
