-- ===== src/ConfigFile/Bounds.antt =====
-- What the sections of a configuration file return, whatever it says.
use auto_xdp.Base.{
  Bool, List, String, [], arith, bool_key, contains, false, if◌then◌else◌, list_key, nat_key,
  option_key, pair_key, refl, string_key, true, ◌<◌, ◌==◌, ◌∷◌, ◌≡◌, ◌≤◌,
}
use auto_xdp.Config.{Float}
use auto_xdp.ConfigFile.{
  Python, Toml, backend_names, coerce_backend, coerce_log_level, coerce_positive_float, empty_table,
  get, int_limit, log_levels, real, text, truth,
}
use auto_xdp.ConfigFile.Globals.{
  int_entry, protection_section, rates_section, runtime_section, switches_section,
}
use auto_xdp.ConfigFile.Records.{Protection, Rates, Runtime, Switches}
use auto_xdp.ConfigFile.Steps.{
  Returns, Returns-next, any_entry, coerce_word_within, positive_step, prefix_step,
}

-- the limits of the default protection are set
pub record IsProtected (p : Protection) : Type 0 where
  pub xdp_sensitive_port_threshold : 0 < p.xdp_sensitive_port_threshold
  pub xdp_default_tcp_syn_rate_strict : 0 < p.xdp_default_tcp_syn_rate_strict
  pub xdp_default_tcp_syn_rate : 0 < p.xdp_default_tcp_syn_rate
  pub xdp_default_tcp_syn_agg_rate_strict : 0 < p.xdp_default_tcp_syn_agg_rate_strict
  pub xdp_default_tcp_syn_agg_rate : 0 < p.xdp_default_tcp_syn_agg_rate
  pub xdp_default_tcp_established_per_src_strict : 0 < p.xdp_default_tcp_established_per_src_strict
  pub xdp_default_tcp_established_per_src : 0 < p.xdp_default_tcp_established_per_src
  pub xdp_default_tcp_established_per_prefix_strict :
      0 < p.xdp_default_tcp_established_per_prefix_strict
  pub xdp_default_tcp_established_per_prefix : 0 < p.xdp_default_tcp_established_per_prefix
  pub xdp_default_tcp_established_per_port_strict :
      0 < p.xdp_default_tcp_established_per_port_strict
  pub xdp_default_tcp_established_per_port : 0 < p.xdp_default_tcp_established_per_port

-- the words that a slot's action can be
abbrev pub slot_actions : List String
slot_actions = "drop" ∷ "pass" ∷ []

module _ {F : Float} (python : Python F) where
  pub protection_section_within :
      (run_cfg : Toml F.Val) → Returns IsProtected (protection_section python run_cfg)
  unfolding protection_section
  protection_section_within run_cfg =
      positive_step python "sensitive_port_threshold" run_cfg 5 IsProtected _ (omega arith)
        (λ n0 h0.
          positive_step python "default_tcp_syn_rate_strict" run_cfg 5 IsProtected _ (omega arith)
            (λ n1 h1.
              positive_step python "default_tcp_syn_rate" run_cfg 100 IsProtected _ (omega arith)
                (λ n2 h2.
                  positive_step python "default_tcp_syn_agg_rate_strict" run_cfg 50 IsProtected _
                    (omega arith)
                    (λ n3 h3.
                      positive_step python "default_tcp_syn_agg_rate" run_cfg 1000 IsProtected _
                        (omega arith)
                        (λ n4 h4.
                          positive_step python "default_tcp_established_per_src_strict" run_cfg 5
                            IsProtected _ (omega arith)
                            (λ n5 h5.
                              positive_step python "default_tcp_established_per_src" run_cfg 50
                                IsProtected _ (omega arith)
                                (λ n6 h6.
                                  positive_step python "default_tcp_established_per_prefix_strict"
                                    run_cfg 20 IsProtected _ (omega arith)
                                    (λ n7 h7.
                                      positive_step python "default_tcp_established_per_prefix"
                                        run_cfg 200 IsProtected _ (omega arith)
                                        (λ n8 h8.
                                          positive_step python
                                            "default_tcp_established_per_port_strict" run_cfg 200
                                            IsProtected _ (omega arith)
                                            (λ n9 h9.
                                              positive_step python
                                                "default_tcp_established_per_port" run_cfg 5000
                                                IsProtected _ (omega arith)
                                                (λ n10 h10. record {
                                                  xdp_sensitive_port_threshold = h0;
                                                  xdp_default_tcp_syn_rate_strict = h1;
                                                  xdp_default_tcp_syn_rate = h2;
                                                  xdp_default_tcp_syn_agg_rate_strict = h3;
                                                  xdp_default_tcp_syn_agg_rate = h4;
                                                  xdp_default_tcp_established_per_src_strict = h5;
                                                  xdp_default_tcp_established_per_src = h6;
                                                  xdp_default_tcp_established_per_prefix_strict =
                                                      h7;
                                                  xdp_default_tcp_established_per_prefix = h8;
                                                  xdp_default_tcp_established_per_port_strict = h9;
                                                  xdp_default_tcp_established_per_port = h10;
                                                })))))))))))

  -- what the sections of one part return
  unfoldable pub IsRates : Rates → Type 0
  IsRates r = (r.rate_limit_source_prefix_v4 ≤ 32) × (r.rate_limit_source_prefix_v6 ≤ 128)

  pub rates_section_within : (rl : Toml F.Val) → Returns IsRates (rates_section python rl)
  unfolding rates_section IsRates
  rates_section_within rl =
      prefix_step python "source_cidr_v4" "source_prefix_v4" rl 32 IsRates _ (λ n h.
        prefix_step python "source_cidr_v6" "source_prefix_v6" rl 128 IsRates _ (λ m k.
          Returns-next IsRates (int_entry python "map_entries_v4" rl 16384) _ (λ entries4.
            Returns-next IsRates (int_entry python "map_entries_v6" rl 4096) _
              (λ entries6. (h, k)))))

  unfoldable pub IsRuntime : Runtime F → Type 0
  IsRuntime r = (0 < r.xdp_conntrack_stale_reconciles) × (0 < r.xdp_icmp_burst_packets)

  pub runtime_section_within :
      (xdp run_cfg : Toml F.Val) → Returns IsRuntime (runtime_section python xdp run_cfg)
  unfolding runtime_section IsRuntime
  runtime_section_within xdp run_cfg =
      positive_step python "conntrack_stale_reconciles" xdp 2 IsRuntime _ (omega arith) (λ n h.
        any_entry python IsRuntime "tcp_timeout_seconds" run_cfg (python.literal 300 0) _ (λ v1.
          any_entry python IsRuntime "udp_timeout_seconds" run_cfg (python.literal 60 0) _ (λ v2.
            any_entry python IsRuntime "conntrack_refresh_seconds" run_cfg (python.literal 30 0) _
              (λ v3.
                any_entry python IsRuntime "conntrack_gc_interval_seconds" run_cfg
                  (python.literal 300 0) _
                  (λ v4.
                    positive_step python "icmp_burst_packets" run_cfg 100 IsRuntime _ (omega arith)
                      (λ m k.
                        any_entry python IsRuntime "icmp_rate_pps" run_cfg (python.literal 100 0) _
                          (λ v5.
                            any_entry python IsRuntime "udp_global_window_seconds" run_cfg
                              (python.literal 1 0) _
                              (λ v6.
                                any_entry python IsRuntime "rate_window_seconds" run_cfg
                                  (python.literal 1 0) _
                                  (λ v7.
                                    any_entry python IsRuntime "syn_timeout_seconds" run_cfg
                                      (python.literal 30 0) _
                                      (λ v8.
                                        any_entry python IsRuntime "udp_global_byte_rate_mbps"
                                          run_cfg (python.literal 0 0) _
                                          (λ mbps.
                                            Returns-next IsRuntime
                                              (int_limit (python.byte_rate mbps)) _
                                              (λ byte_rate. (h, k)))))))))))))

  unfoldable pub IsWords : Switches F → Type 0
  IsWords w =
      (contains w.log_level log_levels ≡ true)
      × (contains w.preferred_backend backend_names ≡ true)
      × (contains w.slot_default_action slot_actions ≡ true)

  drop_or_pass : (b : Bool) → contains (if b then "drop" else "pass") slot_actions ≡ true
  unfolding contains
  drop_or_pass true = refl
  drop_or_pass false = refl

  pub switches_section_within : (cfg : Toml F.Val) → Returns IsWords (switches_section python cfg)
  unfolding switches_section IsWords coerce_log_level coerce_backend contains
  switches_section_within cfg = Returns-next IsWords (get "firewall" cfg empty_table) _ (λ firewall.
      Returns-next IsWords (get "bogon_filter" firewall (truth true)) _ (λ bogon.
        Returns-next IsWords (get "under_attack" cfg empty_table) _ (λ attack.
          Returns-next IsWords (get "enabled" attack (truth false)) _ (λ attacked.
            Returns-next IsWords (get "daemon" cfg empty_table) _ (λ daemon.
              Returns-next IsWords (get "log_level" daemon (text "warning")) _ (λ level.
                Returns-next IsWords (get "debounce_seconds" daemon (real (python.literal 0 4))) _
                  (λ debounce.
                    Returns-next IsWords
                      (coerce_positive_float python debounce (python.literal 0 4)) _
                      (λ seconds.
                        Returns-next IsWords (get "preferred_backend" daemon (text "auto")) _
                          (λ backend.
                            Returns-next IsWords (get "discovery" cfg empty_table) _ (λ discovery.
                              Returns-next IsWords (get "exclude_loopback" discovery (truth true)) _
                                (λ on_loopback.
                                  Returns-next IsWords (get "xdp" cfg empty_table) _ (λ xdp.
                                    Returns-next IsWords
                                      (get "bpf_pin_dir" xdp (text "/sys/fs/bpf/xdp_fw")) _
                                      (λ pin_dir.
                                        Returns-next IsWords (get "nftables" cfg empty_table) _
                                          (λ nftables.
                                            Returns-next IsWords
                                              (get "family" nftables (text "inet")) _
                                              (λ family.
                                                Returns-next IsWords
                                                  (get "table" nftables (text "auto_xdp")) _
                                                  (λ name.
                                                    Returns-next IsWords
                                                      (get "slots" cfg empty_table) _
                                                      (λ slots.
                                                        Returns-next IsWords
                                                          (get "default_action" slots (text "drop"))
                                                          _
                                                          (λ action. (
                                                            coerce_word_within python
                                                            ("debug" ∷ "info" ∷ "warning" ∷ "error"
                                                            ∷ [])
                                                            "warning" level refl,
                                                            coerce_word_within python backend_names
                                                            "auto" backend refl,
                                                            drop_or_pass (
                                                            python.lower (python.str_of action)
                                                            == "drop"),
                                                          )))))))))))))))))))
