-- ===== src/Nft/Apply/Atomic.antt =====
-- How a round of the nftables backend ends.
use auto_xdp.Base.{
  ==_iff, Bool, Bool-cases, Option, Option-cases, String, ap, arith, bool_key, false, inl, inr,
  list_key, nat_key, option_key, pair_key, refl, some, string_key, sym, true, ◌==◌, ◌∙◌, ◌≡◌, ◌⊎◌,
}
use auto_xdp.Nft.{Cidrs}
use auto_xdp.Nft.Apply.{
  NftBackend, RoundEnd, apply_nft_plan, install_ruleset, raised, remember_desired, returned,
  run_script, then_remember,
}
use auto_xdp.Nft.Render.{RenderConfig, render_ruleset}
use auto_xdp.Nft.Signature.{policy_signature}
use auto_xdp.State.{DesiredState}

abbrev pub backend_of : RoundEnd → NftBackend
backend_of (returned b) = b
backend_of (raised b) = b

-- the ways in which a round ends
pub data Ended (ipaddress : Cidrs) (cfg : RenderConfig) (d : DesiredState) (dry_run : Bool)
    (b : NftBackend) (e : RoundEnd) : Type 0 where
  skipped :
      e ≡ returned b
      → b.seen_signature ≡ some (policy_signature cfg d)
      → Ended ipaddress cfg d dry_run b e
  only_shown : e ≡ returned b → dry_run ≡ true → Ended ipaddress cfg d dry_run b e
  stopped_short : e ≡ raised b → Ended ipaddress cfg d dry_run b e
  installed_new :
      (script : String)
      → dry_run ≡ false
      → render_ruleset ipaddress cfg d true ≡ some script
      → e ≡ returned (remember_desired cfg d (record b { installed = some script }))
      → Ended ipaddress cfg d dry_run b e

module _ (ipaddress : Cidrs) (commits : Option String → String → Bool) where
  then_remember-cases :
      (cfg : RenderConfig) (d : DesiredState) (dry_run : Bool) (b : NftBackend)
      → Ended ipaddress cfg d dry_run b (
          then_remember ipaddress commits cfg d dry_run
            (install_ruleset ipaddress commits cfg d true dry_run b))
  unfolding install_ruleset
  then_remember-cases cfg d dry_run b =
      let remember = then_remember ipaddress commits cfg d dry_run in
      let installing = install_ruleset ipaddress commits cfg d true dry_run b in
      elim (Option-cases (render_ruleset ipaddress cfg d true)) [
        | inl no_script ↦
            let e : installing ≡ raised b = ap (run_script ipaddress commits dry_run b) no_script in
            stopped_short (ap remember e)
        | inr (script, renders) ↦ elim (Bool-cases dry_run) [
          | inl dry ↦
              let e : installing ≡ returned b =
                ap (run_script ipaddress commits dry_run b) renders ∙ rw dry refl in
              only_shown (ap remember e ∙ rw dry refl) dry
          | inr real ↦ elim (Bool-cases (commits b.installed script)) [
            | inl accepted ↦
                let e : installing ≡ returned (record b { installed = some script }) =
                  ap (run_script ipaddress commits dry_run b) renders ∙ rw (real, accepted) refl in
                installed_new script real renders (ap remember e ∙ rw real refl)
            | inr denied ↦
                let e : installing ≡ raised b =
                  ap (run_script ipaddress commits dry_run b) renders ∙ rw (real, denied) refl in
                stopped_short (ap remember e)
          ]
        ]
      ]

  pub apply_nft_plan-cases :
      (cfg : RenderConfig) (d : DesiredState) (dry_run : Bool) (b : NftBackend)
      → Ended ipaddress cfg d dry_run b (apply_nft_plan ipaddress commits cfg d dry_run b)
  unfolding apply_nft_plan install_ruleset
  apply_nft_plan-cases cfg d dry_run b =
      elim (Bool-cases (some (policy_signature cfg d) == b.seen_signature)) [
        | inl recorded ↦
            skipped (rw recorded refl)
              (sym ((==_iff (some (policy_signature cfg d)) b.seen_signature).0 recorded))
        | inr unseen ↦ rw unseen (then_remember-cases cfg d dry_run b)
      ]

  Ended-atomic :
      (cfg : RenderConfig) (d : DesiredState) (dry_run : Bool) (b b' : NftBackend) (e : RoundEnd)
      → Ended ipaddress cfg d dry_run b e
      → (dry_run ≡ true) ⊎ (e ≡ raised b')
      → backend_of e ≡ b
  Ended-atomic cfg d dry_run b b' e (skipped f recorded) h = ap backend_of f
  Ended-atomic cfg d dry_run b b' e (only_shown f dry) h = ap backend_of f
  Ended-atomic cfg d dry_run b b' e (stopped_short f) h = ap backend_of f
  Ended-atomic cfg d dry_run b b' e (installed_new script real renders f) (inl dry) =
      absurd (ground (arith, real, dry))
  Ended-atomic cfg d dry_run b b' e (installed_new script real renders f) (inr raises) = absurd (cc)

  -- A round changes everything or nothing: whenever it is a dry run or raises, the caches, the
  -- signature and the table in the kernel are as they were.
  pub apply_nft_plan_atomic :
      (cfg : RenderConfig) (d : DesiredState) (dry_run : Bool) (b b' : NftBackend)
      → (dry_run ≡ true) ⊎ (apply_nft_plan ipaddress commits cfg d dry_run b ≡ raised b')
      → backend_of (apply_nft_plan ipaddress commits cfg d dry_run b) ≡ b
  apply_nft_plan_atomic cfg d dry_run b b' =
      Ended-atomic cfg d dry_run b b' (apply_nft_plan ipaddress commits cfg d dry_run b)
        (apply_nft_plan-cases cfg d dry_run b)
