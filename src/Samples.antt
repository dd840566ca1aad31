-- ===== src/Samples.antt =====
-- A small configuration, a set of observed sockets and a backend over plain dicts, on which the
-- examples of the theorems run.
use auto_xdp.Base.{
  [], bool_key, false, list_key, ltb, nat_key, none, option_key, pair_key, some, string_key, true,
  ℕ, ◌*◌, ◌/◌, ◌∷◌,
}
use auto_xdp.Backend.{Backend, Kernels}
use auto_xdp.Bpf.Samples.{table_kernel}
use auto_xdp.Config.{Config, Float, Limits, Services}
use auto_xdp.State.{Bytes, DesiredState, ObservedState}

abbrev pub whole_seconds : Float
whole_seconds = record {
  Val = ℕ;
  to_ns = λ n. n * 1000000000;
  per_second_ns = λ n. 1000000000 / n;
  ceil = λ n. n;
  positive = ltb 0;
}

abbrev pub sample_services : Services
sample_services = (("tcp", 22), "ssh") ∷ (("tcp", 443), "https") ∷ (("udp", 53), "domain") ∷ []

abbrev no_limits : Limits
no_limits = record { by_proc = []; by_service = [] }

abbrev pub sample_config : Config whole_seconds
sample_config = record {
  syn_rate = record {
    by_proc = ("nginx", 400) ∷ [];
    by_service = ("ssh", 3) ∷ ("https", 100) ∷ [];
  };
  syn_agg_rate = no_limits;
  tcp_conn = record { by_proc = ("nginx", 64) ∷ []; by_service = [] };
  tcp_conn_prefix = no_limits;
  tcp_conn_port = no_limits;
  udp_rate = record { by_proc = []; by_service = ("domain", 50) ∷ [] };
  udp_agg_bytes = no_limits;
  rate_map_entries = no_limits;
  rate_map_entries_v4 = 4096;
  rate_map_entries_v6 = 1024;
  xdp_sensitive_port_threshold = 5;
  xdp_default_tcp_syn_rate_strict = 2;
  xdp_default_tcp_syn_rate = 0;
  xdp_default_tcp_syn_agg_rate_strict = 20;
  xdp_default_tcp_syn_agg_rate = 0;
  xdp_default_tcp_established_per_src_strict = 8;
  xdp_default_tcp_established_per_src = 0;
  xdp_default_tcp_established_per_prefix_strict = 16;
  xdp_default_tcp_established_per_prefix = 0;
  xdp_default_tcp_established_per_port_strict = 32;
  xdp_default_tcp_established_per_port = 0;
  rate_limit_source_prefix_v4 = 32;
  rate_limit_source_prefix_v6 = 64;
  bogon_filter_enabled = true;
  drop_events_enabled = true;
  xdp_conntrack_stale_reconciles = 2;
  xdp_tcp_timeout_seconds = 300;
  xdp_udp_timeout_seconds = 60;
  xdp_conntrack_refresh_seconds = 30;
  xdp_icmp_burst_packets = 100;
  xdp_icmp_rate_pps = 100;
  xdp_udp_global_window_seconds = 1;
  xdp_rate_window_seconds = 1;
  xdp_syn_timeout_seconds = 10;
  xdp_udp_global_byte_rate = 0;
  tcp_permanent = (22, "ssh") ∷ [];
  udp_permanent = [];
  sctp_permanent = [];
  trusted_src_ips = ("10.0.0.0/8", "lan") ∷ [];
  acl_rules = record { proto = "tcp"; cidr = "10.0.0.0/8"; ports = 5432 ∷ [] } ∷ [];
  sit4_endpoints = [];
  abuseipdb_enabled = false;
  slot_default_action = "pass";
}

abbrev pub sample_flow : ℕ → Bytes
sample_flow port = 156 ∷ 64 ∷ 0 ∷ port ∷ 192 ∷ 0 ∷ 2 ∷ 1 ∷ 192 ∷ 0 ∷ 2 ∷ 9 ∷ []

abbrev pub sample_observed : ObservedState
sample_observed = record {
  tcp = 22 ∷ 443 ∷ [];
  udp = 53 ∷ [];
  sctp = [];
  established = sample_flow 22 ∷ [];
  tcp_processes = (443, "nginx") ∷ [];
  udp_processes = [];
  udp_sock_opts = [];
}

abbrev pub sample_kernels : Kernels
sample_kernels = record {
  ports = table_kernel;
  networks = table_kernel;
  flows = table_kernel;
  policies = table_kernel;
  rules = table_kernel;
  runtime = table_kernel;
  global_rate = table_kernel;
  rate_slots = table_kernel;
  map_create = λ n s. (true, s);
  normalize = λ text. text;
}

-- port 80 is open, and one connection to it is tracked
abbrev pub sample_backend : Backend sample_kernels
sample_backend = record {
  last_apply_failures = 0;
  tcp_map = record { kernel = ((80, 1) ∷ [], false); cache = 80 ∷ [] };
  udp_map = record { kernel = ([], false); cache = [] };
  trusted_map = record {
    map4 = record { kernel = ([], false); cache = [] };
    map6 = record { kernel = ([], false); cache = [] };
  };
  conntrack_map = record {
    map4 = record { kernel = ((sample_flow 80, 5) ∷ [], false); cache = sample_flow 80 ∷ [] };
    map6 = record { kernel = ([], false); cache = [] };
  };
  udp_conntrack_map = record {
    map4 = record { kernel = ([], false); cache = [] };
    map6 = record { kernel = ([], false); cache = [] };
  };
  conntrack_stale_rounds = (sample_flow 80, 1) ∷ [];
  tcp_policy_map = some (record { kernel = ([], false); cache = [] });
  udp_policy_map = some (record { kernel = ([], false); cache = [] });
  acl_maps = none;
  runtime_config_map = none;
  global_rl_map = none;
  sctp_map = none;
  sit4_map = none;
  syn4_outer = none;
  syn6_outer = none;
  udprt4_outer = none;
  udprt6_outer = none;
}

-- what is wanted by hand: port 443 over TCP with a limit, and port 53 over UDP
abbrev pub sample_desired : DesiredState
sample_desired = record {
  tcp_ports = 443 ∷ [];
  udp_ports = 53 ∷ [];
  sctp_ports = [];
  trusted_cidrs = [];
  conntrack_entries = [];
  tcp_syn_rate_limits = (443, 100) ∷ [];
  tcp_syn_agg_rate_limits = [];
  tcp_conn_limits = [];
  tcp_conn_prefix_limits = [];
  tcp_conn_port_limits = [];
  udp_rate_limits = (53, 50) ∷ [];
  udp_agg_rate_limits = [];
  tcp_rate_map_entries = [];
  udp_rate_map_entries = [];
  acl_rules = [];
  bogon_filter_enabled = true;
  drop_events_enabled = true;
  rate_limit_source_prefix_v4 = 32;
  rate_limit_source_prefix_v6 = 128;
  udp_global_byte_rate = 0;
  xdp_runtime_config = record {
    tcp_timeout_ns = 300;
    udp_timeout_ns = 60;
    conntrack_refresh_ns = 30;
    icmp_burst_packets = 100;
    icmp_ns_per_token = 10;
    udp_global_window_ns = 1;
    rate_window_ns = 1;
    syn_timeout_ns = 10;
  };
}
