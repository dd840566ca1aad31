-- ===== src/InstallState/Machine.antt =====
-- What auto_xdp/install_state.py keeps between runs: the machine state that `select` merges and
-- `record` updates, and the runtime state. A state is the JSON that the file
-- holds, without the number of its schema, which is a constant.
pub mod Recorded
pub mod Arguments
use auto_xdp.Base.{
  Bool, Dict, List, Option, String, [], add, bool_key, contains, dict_for, false, get_or,
  if◌then◌else◌, insert, list_key, lookup, nat_key, none, not, option_key, pair_key, some, sort,
  string_key, text_leb, true, ℕ, ◌&&◌, ◌==◌, ◌∷◌,
}

-- a JSON value; of an array, an object or a float only the truth is read
pub data Json : Type 0 where
  null : Json
  boolean : Bool → Json
  integer : ℕ → Json
  string : String → Json
  compound : Bool → ℕ → Json

-- `bool(value)`
unfoldable pub truth : Json → Bool
truth null = false
truth (boolean b) = b
truth (integer n) = not (n == 0)
truth (string t) = not (t == "")
truth (compound b n) = b

-- an object, or `none` for what is no object
abbrev pub Object : Type 0
Object = Option (Dict String Json)

-- `x if isinstance(x, dict) else {}`
abbrev pub as_dict {ℓ} : {V : Type ℓ} → Option (Dict String V) → Dict String V
as_dict d = get_or d []

pub record Machine : Type 0 where
  -- `none` if the key is missing or its value is no object
  pub interfaces : Option (Dict String Object)
  pub selection : Option Json
  pub excluded : Option (Dict String String)

abbrev pub json_or_null : Option Json → Json
json_or_null v = get_or v null

-- the entry of one selected interface
unfoldable pub merged_entry : String → Dict String Json → Dict String Json
merged_entry default_xdp_mode old =
    ("xdp_mode", get_or (lookup "xdp_mode" old) (string default_xdp_mode))
    ∷ ("requested_mode", string default_xdp_mode)
    ∷ ("last_program_id", json_or_null (lookup "last_program_id" old))
    ∷ ("tc_egress", boolean (truth (get_or (lookup "tc_egress" old) (boolean false))))
    ∷ []

-- `old_interfaces.get(name, {})`, and `{}` for what is no object
unfoldable pub old_entry : Dict String Object → String → Dict String Json
old_entry old_interfaces name = as_dict (get_or (lookup name old_interfaces) (some []))

key_leb : String × String → String × String → Bool
key_leb a b = text_leb a.0 b.0

unfoldable pub merge_machine_state :
    Machine → List String → Dict String String → String → String → Machine
unfolding key_leb
merge_machine_state previous selected excluded selection default_xdp_mode = record {
  interfaces = some (
      dict_for
        (λ name.
          some (merged_entry default_xdp_mode (old_entry (as_dict previous.interfaces) name)))
        selected);
  selection = some (string selection);
  excluded = some (sort key_leb excluded);
}

-- what the launcher says of an interface, as `_parse_interface_state` reads it
pub record InterfaceState : Type 0 where
  pub xdp_mode : String
  pub program_id : Option ℕ
  pub tc_egress : Bool
  pub verified : Bool

-- the modes that count, without those of earlier interfaces
unfoldable pub modes_of : Dict String InterfaceState → List String
modes_of [] = []
modes_of ((name, state) ∷ states) =
    let rest = modes_of states in
    if contains state.xdp_mode ("native" ∷ "generic" ∷ []) then add state.xdp_mode rest else rest

abbrev pub summary_of : List String → String
summary_of [] = "none"
summary_of (mode ∷ []) = mode
summary_of (mode ∷ other ∷ modes) = "mixed"

unfoldable pub summarize_xdp_mode : Dict String InterfaceState → String
summarize_xdp_mode states = summary_of (modes_of states)

pub record RuntimeState : Type 0 where
  pub requested_backend : String
  pub active_backend : String
  pub xdp_mode : String
  pub interfaces : Dict String InterfaceState
  pub generation : String
  pub fallback_reason : Option String
  pub healthy : Bool

-- `None if program_id in {"", "-"} else int(program_id)`, as JSON
abbrev pub program_id_json : Option ℕ → Json
program_id_json none = null
program_id_json (some id) = integer id

-- `previous.update({...})`
unfoldable pub recorded_entry : InterfaceState → Dict String Json → Dict String Json
recorded_entry state previous = insert "tc_egress" (boolean state.tc_egress) (
    insert "last_program_id" (program_id_json state.program_id)
      (insert "xdp_mode" (string state.xdp_mode) previous))

-- the loop over `interface_states.items()`
unfoldable pub record_all : Dict String InterfaceState → Dict String Object → Dict String Object
record_all [] old_interfaces = old_interfaces
record_all ((name, state) ∷ states) old_interfaces =
    record_all states
      (insert name (some (recorded_entry state (old_entry old_interfaces name))) old_interfaces)

unfoldable pub all_verified : Dict String InterfaceState → Bool
all_verified [] = true
all_verified ((name, state) ∷ states) = state.verified && all_verified states

pub record Recording : Type 0 where
  pub interface_states : Dict String InterfaceState
  pub requested_backend : String
  pub active_backend : String
  pub generation : String
  pub fallback_reason : Option String

-- `_cmd_record`: the two files that it writes
unfoldable pub cmd_record : Recording → Machine → Machine × RuntimeState
cmd_record args machine = (
  record machine {
    interfaces = some (record_all args.interface_states (as_dict machine.interfaces));
  },
  record {
    requested_backend = args.requested_backend;
    active_backend = args.active_backend;
    xdp_mode = summarize_xdp_mode args.interface_states;
    interfaces = args.interface_states;
    generation = args.generation;
    fallback_reason = args.fallback_reason;
    healthy = all_verified args.interface_states;
  },
)
