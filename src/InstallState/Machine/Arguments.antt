-- ===== src/InstallState/Machine/Arguments.antt =====
-- `_parse_interface_state` of auto_xdp/install_state.py: what the launcher tells of an interface. The
-- conversion `int` of a text is a parameter, which is `none` for a ValueError; a program has no
-- negative number.
use mathlib.Core.Option
use auto_xdp.Base.{
  Bool, List, Option, String, [], bool_key, contains, if◌then◌else◌, list_key, nat_key, none, not,
  option_key, pair_key, some, split, split_once, string_key, ℕ, ◌&&◌, ◌==◌, ◌||◌, ◌∷◌,
}
use auto_xdp.InstallState.Machine.{InterfaceState}

abbrev pub has_program : String → Bool
has_program program_id = not (contains program_id ("" ∷ "-" ∷ []))

-- the dict of an interface
abbrev pub state_with : String → String → String → Option ℕ → InterfaceState
state_with mode program_id tc_state id = record {
  xdp_mode = mode;
  program_id = id;
  tc_egress = tc_state == "attached";
  verified = mode == "off" || has_program program_id && tc_state == "attached";
}

-- the mode must be known, and the number may raise
unfoldable pub state_of : (String → Option ℕ) → String → String → String → Option InterfaceState
state_of int mode program_id tc_state =
    let state = state_with mode program_id tc_state in
    if not (contains mode ("native" ∷ "generic" ∷ "off" ∷ []))
    then none
    else if has_program program_id
    then Option.map (λ id. state (some id)) (int program_id)
    else some (state none)

unfoldable pub parse_payload : (String → Option ℕ) → List String → Option InterfaceState
parse_payload int (mode ∷ program_id ∷ tc_state ∷ []) = state_of int mode program_id tc_state
parse_payload int parts = none

-- `none` for the ValueError
unfoldable pub parse_interface_state :
    (String → Option ℕ) → String → Option (String × InterfaceState)
parse_interface_state int raw = elim (split_once b'=' raw) [
  | none ↦ none
  | some (name, payload) ↦
      Option.map (λ state. (name, state)) (parse_payload int (split b':' payload))
]
