-- ===== src/Examples/Plans.antt =====
-- The plan of auto_xdp/state.py for the sample state.
use auto_xdp.Base.{bool_key, list_key, nat_key, option_key, pair_key, string_key, ◌≡◌}
use auto_xdp.Backend.{get_applied_state}
use auto_xdp.Policy.{resolve_desired_state}
use auto_xdp.Policy.Resolve.{resolve_desired_state-IsDesired}
use auto_xdp.Samples.{
  sample_backend, sample_config, sample_kernels, sample_observed, sample_services,
}
use auto_xdp.State.{AppliedState, DesiredState, compute_reconcile_plan}
use auto_xdp.State.Carry.{carry_out_plan-Agrees, compute_reconcile_plan-Agrees}
use auto_xdp.State.Reached.{Agrees, carry_out, empty_plan}

abbrev resolved : DesiredState
resolved = resolve_desired_state sample_services sample_config sample_observed

abbrev in_place : AppliedState
in_place = (get_applied_state sample_kernels sample_backend).0

carry_out_plan-Agrees_example :
    Agrees resolved (carry_out (compute_reconcile_plan resolved in_place) in_place)
carry_out_plan-Agrees_example =
    carry_out_plan-Agrees resolved in_place
      (resolve_desired_state-IsDesired sample_services sample_config sample_observed)

compute_reconcile_plan-Agrees_example :
    compute_reconcile_plan resolved (carry_out (compute_reconcile_plan resolved in_place) in_place)
    ≡ empty_plan
compute_reconcile_plan-Agrees_example =
    compute_reconcile_plan-Agrees resolved
      (carry_out (compute_reconcile_plan resolved in_place) in_place)
      (resolve_desired_state-IsDesired sample_services sample_config sample_observed)
      (carry_out_plan-Agrees resolved in_place
        (resolve_desired_state-IsDesired sample_services sample_config sample_observed))
