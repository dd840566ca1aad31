-- ===== src/Nft/Apply/Rounds.antt =====
-- Rounds of the nftables backend: what is in the kernel and in the caches after any of them.
use auto_xdp.Base.{
  ==_iff, Bool, Bool-cases, List, Option, String, [], ap, arith, bool_key, false, inl, inr,
  list_key, nat_key, none, option_key, pair_key, refl, some, string_key, subst, sym, true, ◌==◌,
  ◌∙◌, ◌∷◌, ◌≡◌,
}
use auto_xdp.Nft.{Cidrs}
use auto_xdp.Nft.Apply.{
  NftBackend, RoundEnd, apply_nft_plan, install_ruleset, nft_applied_state, remember_desired,
  returned, run_script, then_remember,
}
use auto_xdp.Nft.Apply.Agreement.{Agrees-signature, flowless, remember_desired-Agrees}
use auto_xdp.Nft.Apply.Atomic.{
  Ended, apply_nft_plan-cases, backend_of, installed_new, only_shown, skipped, stopped_short,
}
use auto_xdp.Nft.Render.{IcmpLimits, RenderConfig, render_ruleset}
use auto_xdp.Nft.Signature.{Signature, policy_signature}
use auto_xdp.Nft.Signature.Script.{render_ruleset-policy_signature}
use auto_xdp.State.{DesiredState}
use auto_xdp.State.Reached.{Agrees, IsDesired}

pub record Round : Type 0 where
  pub cfg : RenderConfig
  pub desired : DesiredState
  pub dry_run : Bool

some_same : (p q : Signature) → some p ≡ some q → p ≡ q
some_same p q e = cc

module _ (ipaddress : Cidrs) (commits : Option String → String → Bool) where
  -- the daemon goes on after an exception
  unfoldable pub run_rounds : List Round → NftBackend → NftBackend
  run_rounds [] b = b
  run_rounds (r ∷ rounds) b =
      run_rounds rounds (backend_of (apply_nft_plan ipaddress commits r.cfg r.desired r.dry_run b))

  abbrev pub IsWritten : IcmpLimits → Signature → NftBackend → Type 0
  IsWritten icmp recorded b =
      (cfg : RenderConfig) × (d : DesiredState) × IsDesired d
      × (policy_signature cfg d ≡ recorded)
      × (cfg.icmp ≡ icmp)
      × Agrees (flowless d) (nft_applied_state b)
      × (b.installed ≡ render_ruleset ipaddress cfg d true)

  -- where the backend has recorded a signature, a policy of it is in the kernel and in the caches
  abbrev pub IsCoherent : IcmpLimits → NftBackend → Type 0
  IsCoherent icmp b =
      (recorded : Signature) → b.seen_signature ≡ some recorded → IsWritten icmp recorded b

  module _ (icmp : IcmpLimits) (cfg : RenderConfig) (d : DesiredState) (b : NftBackend)
      (h : IsDesired d) (same_icmp : cfg.icmp ≡ icmp) (g : IsCoherent icmp b) where
    -- what is in place when the signature was recorded
    seen_in_place :
        b.seen_signature ≡ some (policy_signature cfg d)
        → Agrees (flowless d) (nft_applied_state b)
          × (b.installed ≡ render_ruleset ipaddress cfg d true)
    seen_in_place recorded =
        let (cfg', d', h', e, f, agrees, in_kernel) = g (policy_signature cfg d) recorded in
        (
          Agrees-signature cfg' cfg d' d (nft_applied_state b) h' h e agrees,
          in_kernel
              ∙ render_ruleset-policy_signature ipaddress cfg' cfg d' d true h' h e
                  (f ∙ sym same_icmp),
        )

    IsWritten-installed_new :
        (script : String)
        → render_ruleset ipaddress cfg d true ≡ some script
        → IsWritten icmp
            (policy_signature cfg d)
            (remember_desired cfg d (record b { installed = some script }))
    unfolding remember_desired
    IsWritten-installed_new script renders = (
      cfg,
      d,
      h,
      refl,
      same_icmp,
      remember_desired-Agrees cfg d (record b { installed = some script }),
      sym renders,
    )

    apply_nft_plan-IsCoherent :
        (dry_run : Bool) (e : RoundEnd)
        → Ended ipaddress cfg d dry_run b e
        → IsCoherent icmp (backend_of e)
    unfolding remember_desired
    apply_nft_plan-IsCoherent dry_run e (skipped f recorded) =
        subst (λ x. IsCoherent icmp (backend_of x)) (sym f) g
    apply_nft_plan-IsCoherent dry_run e (only_shown f dry) =
        subst (λ x. IsCoherent icmp (backend_of x)) (sym f) g
    apply_nft_plan-IsCoherent dry_run e (stopped_short f) =
        subst (λ x. IsCoherent icmp (backend_of x)) (sym f) g
    apply_nft_plan-IsCoherent dry_run e (installed_new script real renders f) =
        subst (λ x. IsCoherent icmp (backend_of x)) (sym f)
          (λ recorded k.
            subst
              (λ x.
                IsWritten icmp x (remember_desired cfg d (record b { installed = some script })))
              (some_same (policy_signature cfg d) recorded k)
              (IsWritten-installed_new script renders))

  abbrev pub AllRounds : IcmpLimits → List Round → Type 0
  AllRounds icmp [] = Unit
  AllRounds icmp (r ∷ rounds) = IsDesired r.desired × (r.cfg.icmp ≡ icmp) × AllRounds icmp rounds

  run_rounds-IsCoherent :
      (icmp : IcmpLimits) (rounds : List Round) (b : NftBackend)
      → AllRounds icmp rounds
      → IsCoherent icmp b
      → IsCoherent icmp (run_rounds rounds b)
  unfolding run_rounds
  run_rounds-IsCoherent icmp [] b all g = g
  run_rounds-IsCoherent icmp (r ∷ rounds) b (h, same_icmp, all) g =
      run_rounds-IsCoherent icmp rounds
        (backend_of (apply_nft_plan ipaddress commits r.cfg r.desired r.dry_run b)) all
        (apply_nft_plan-IsCoherent icmp r.cfg r.desired b h same_icmp g r.dry_run
          (apply_nft_plan ipaddress commits r.cfg r.desired r.dry_run b)
          (apply_nft_plan-cases ipaddress commits r.cfg r.desired r.dry_run b))

  -- what a round makes of a policy whose script is accepted
  abbrev pub IsEnforced : RenderConfig → DesiredState → String → RoundEnd → Type 0
  IsEnforced cfg d script e =
      (b : NftBackend) × (e ≡ returned b)
      × Agrees (flowless d) (nft_applied_state b)
      × (b.installed ≡ some script)

  apply_nft_plan-IsEnforced :
      (icmp : IcmpLimits) (cfg : RenderConfig) (d : DesiredState) (script : String) (b : NftBackend)
      → IsDesired d
      → cfg.icmp ≡ icmp
      → render_ruleset ipaddress cfg d true ≡ some script
      → commits b.installed script ≡ true
      → IsCoherent icmp b
      → IsEnforced cfg d script (apply_nft_plan ipaddress commits cfg d false b)
  unfolding apply_nft_plan install_ruleset remember_desired
  apply_nft_plan-IsEnforced icmp cfg d script b h same_icmp renders accepted g =
      elim (Bool-cases (some (policy_signature cfg d) == b.seen_signature)) [
        | inl recorded ↦
            let (agrees, in_kernel) =
              seen_in_place icmp cfg d b h same_icmp g
                (sym ((==_iff (some (policy_signature cfg d)) b.seen_signature).0 recorded)) in
            (b, rw recorded refl, agrees, in_kernel ∙ renders)
        | inr unseen ↦
            let e : install_ruleset ipaddress commits cfg d true false b
                ≡ returned (record b { installed = some script }) =
              ap (run_script ipaddress commits false b) renders ∙ rw accepted refl in
            (
              remember_desired cfg d (record b { installed = some script }),
              rw unseen (ap (then_remember ipaddress commits cfg d false) e),
              remember_desired-Agrees cfg d (record b { installed = some script }),
              refl,
            )
      ]

  -- Whatever rounds were before, failed ones and dry runs included, from a backend that has seen no
  -- policy yet: a round that is no dry run returns whenever its script can be rendered and nft
  -- commits it, and then the kernel has exactly that script, and the applied state agrees with the
  -- wanted one in the ports, the trusted networks, the limits of TCP, UDP and of the whole, the ACL
  -- rules and the switches, which are the fields of the agreement but for the flows. The source
  -- prefixes and the runtime configuration are no part of it. The rounds have the same limits for
  -- ICMP.
  pub run_rounds_enforce :
      (rounds : List Round) (b : NftBackend) (cfg : RenderConfig) (d : DesiredState)
      (script : String)
      → b.seen_signature ≡ none
      → AllRounds cfg.icmp rounds
      → IsDesired d
      → render_ruleset ipaddress cfg d true ≡ some script
      → commits (run_rounds rounds b).installed script ≡ true
      → IsEnforced cfg d script (apply_nft_plan ipaddress commits cfg d false (run_rounds rounds b))
  run_rounds_enforce rounds b cfg d script fresh all h renders accepted =
      apply_nft_plan-IsEnforced cfg.icmp cfg d script (run_rounds rounds b) h refl renders accepted
        (run_rounds-IsCoherent cfg.icmp rounds b all
          (λ recorded k. absurd (ground (arith, fresh, k))))
