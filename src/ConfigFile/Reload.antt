-- ===== src/ConfigFile/Reload.antt =====
-- What holds of the globals after a configuration was applied, whatever the file says.
-- The prefixes fit their family, the positive numbers are positive, and the words are known ones.
use auto_xdp.Base.{
  bool_key, contains, list_key, nat_key, option_key, pair_key, refl, string_key, subst, true, ◌<◌,
  ◌≡◌, ◌≤◌,
}
use auto_xdp.Config.{Float}
use auto_xdp.ConfigFile.{
  Load, Python, Toml, backend_names, beyond, empty_table, get, loaded, log_levels, raises,
}
use auto_xdp.ConfigFile.Bounds.{
  IsProtected, IsRates, IsRuntime, IsWords, protection_section_within, rates_section_within,
  runtime_section_within, slot_actions, switches_section_within,
}
use auto_xdp.ConfigFile.Globals.{
  abuse_section, applied, apply_toml_config, apply_toml_config_in_place, protection_section,
  rates_section, rejected, restored, runtime_section, switches_section, tables_section,
}
use auto_xdp.ConfigFile.Records.{Globals}
use auto_xdp.ConfigFile.Steps.{Returns, Returns-next, Returns-step}
use auto_xdp.ConfigFile.Tables.{clear}

pub record IsSane (F : Float) (g : Globals F) : Type 0 where
  pub prefix_v4 : g.rates.rate_limit_source_prefix_v4 ≤ 32
  pub prefix_v6 : g.rates.rate_limit_source_prefix_v6 ≤ 128
  pub stale_reconciles : 0 < g.runtime.xdp_conntrack_stale_reconciles
  pub icmp_burst : 0 < g.runtime.xdp_icmp_burst_packets
  pub protection : IsProtected g.protection
  pub log_level : contains g.switches.log_level log_levels ≡ true
  pub preferred_backend : contains g.switches.preferred_backend backend_names ≡ true
  pub slot_default_action : contains g.switches.slot_default_action slot_actions ≡ true

module _ {F : Float} (python : Python F) where
  apply_toml_config_within :
      (cfg : Toml F.Val) (g : Globals F)
      → Returns (IsSane F) (apply_toml_config_in_place python cfg g)
  unfolding apply_toml_config_in_place IsRates IsRuntime IsWords
  apply_toml_config_within cfg g =
      Returns-next (IsSane F) (tables_section python cfg (clear g.tables)) _ (λ tables.
        Returns-next (IsSane F) (get "rate_limits" cfg empty_table) _ (λ rl.
          Returns-step (IsRates python) (IsSane F) (rates_section python rl) _
            (rates_section_within python rl)
            (λ rates on_rates.
              Returns-step (IsWords python) (IsSane F) (switches_section python cfg) _
                (switches_section_within python cfg)
                (λ switches on_words. Returns-next (IsSane F) (get "xdp" cfg empty_table) _ (λ xdp.
                  Returns-next (IsSane F) (get "runtime" xdp empty_table) _ (λ run_cfg.
                    Returns-step (IsRuntime python) (IsSane F) (runtime_section python xdp run_cfg)
                      _ (runtime_section_within python xdp run_cfg)
                      (λ runtime on_runtime.
                        Returns-step IsProtected (IsSane F) (protection_section python run_cfg) _
                          (protection_section_within python run_cfg)
                          (λ protection on_protection.
                            Returns-next (IsSane F) (abuse_section python cfg) _ (λ abuse. record {
                              prefix_v4 = on_rates.0;
                              prefix_v6 = on_rates.1;
                              stale_reconciles = on_runtime.0;
                              icmp_burst = on_runtime.1;
                              protection = on_protection;
                              log_level = on_words.0;
                              preferred_backend = on_words.1;
                              slot_default_action = on_words.2;
                            })))))))))

  applied-result : {g g' : Globals F} → applied g ≡ applied g' → g ≡ g'
  applied-result e = cc

  restored-IsSane :
      (snapshot g' : Globals F) (l : Load (Globals F))
      → Returns (IsSane F) l
      → restored python snapshot l ≡ applied g'
      → IsSane F g'
  unfolding restored
  restored-IsSane snapshot g' (loaded g) h e = subst (IsSane F) (applied-result e) h
  restored-IsSane snapshot g' raises h e = absurd (cc)
  restored-IsSane snapshot g' beyond h e = absurd (cc)

  -- Whatever stands in the file: when a configuration is applied without an exception, the source
  -- prefixes fit their address family, every limit of the default protection, the burst of ICMP and
  -- the number of missed rounds are positive, and the log level, the preferred backend and the
  -- default action are among the words that the program knows.
  pub apply_toml_config-IsSane :
      (cfg : Toml F.Val) (g g' : Globals F)
      → apply_toml_config python cfg g ≡ applied g'
      → IsSane F g'
  unfolding apply_toml_config
  apply_toml_config-IsSane cfg g g' e =
      restored-IsSane g g' (apply_toml_config_in_place python cfg g)
        (apply_toml_config_within cfg g) e

  restored_forgets :
      (g g' : Globals F) (l : Load (Globals F))
      → ((new : Globals F) → restored python g l ≡ applied new → restored python g' l ≡ applied new)
        × ((kept : Globals F)
            → restored python g l ≡ rejected kept
            → (kept ≡ g) × (restored python g' l ≡ rejected g'))
  unfolding restored
  restored_forgets g g' (loaded result) = (λ new e. e, λ kept e. absurd (cc))
  restored_forgets g g' raises = (λ new e. absurd (cc), λ kept e. (cc, refl))
  restored_forgets g g' beyond = (λ new e. absurd (cc), λ kept e. absurd (cc))

  -- A reload leaves nothing of the configuration before it: whether a file is applied or rejected
  -- does not depend on the globals before, and neither do the globals that an applied file makes.
  -- A rejected file leaves exactly the globals that were there, whatever they were.
  pub apply_toml_config_forgets :
      (cfg : Toml F.Val) (g g' : Globals F)
      → ((new : Globals F)
          → apply_toml_config python cfg g ≡ applied new
          → apply_toml_config python cfg g' ≡ applied new)
        × ((kept : Globals F)
            → apply_toml_config python cfg g ≡ rejected kept
            → (kept ≡ g) × (apply_toml_config python cfg g' ≡ rejected g'))
  unfolding apply_toml_config apply_toml_config_in_place clear
  apply_toml_config_forgets cfg g g' =
      restored_forgets g g' (apply_toml_config_in_place python cfg g)
