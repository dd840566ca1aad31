-- ===== src/InstallState/Machine/Recorded.antt =====
-- What `record` has written is what the next `select` finds.
use auto_xdp.Base.{
  Dict, IsDict, List, Option, String, [], ap, arith, bool_key, contains, get_or, if◌then◌else◌,
  insert, list_key, lookup, lookup-dict_for, lookup-insert, nat_key, none, option_key, pair_key,
  refl, some, string_key, ◌∙◌, ◌∷◌, ◌≡◌,
}
use auto_xdp.InstallState.Machine.{
  InterfaceState, Json, Machine, Object, Recording, as_dict, boolean, cmd_record,
  merge_machine_state, merged_entry, old_entry, program_id_json, record_all, recorded_entry, string,
  truth,
}

-- what `select` keeps of a recorded interface
abbrev pub kept_entry : String → InterfaceState → Dict String Json
kept_entry default_xdp_mode s =
    ("xdp_mode", string s.xdp_mode)
    ∷ ("requested_mode", string default_xdp_mode)
    ∷ ("last_program_id", program_id_json s.program_id)
    ∷ ("tc_egress", boolean s.tc_egress)
    ∷ []

-- the entry after a recording, by what was recorded of the interface
abbrev recorded_or : Option InterfaceState → Dict String Object → String → Option Object
recorded_or none old name = lookup name old
recorded_or (some s) old name = some (some (recorded_entry s (old_entry old name)))

lookup-record_all :
    (name : String) (states : Dict String InterfaceState) (old : Dict String Object)
    → IsDict states
    → lookup name (record_all states old) ≡ recorded_or (lookup name states) old name
unfolding lookup record_all old_entry
lookup-record_all name [] old h = refl
lookup-record_all name ((j, s) ∷ states) old h = ground (
  arith,
  string_key.eqb_iff j name,
  lookup-insert name j (some (recorded_entry s (old_entry old j))) old,
  lookup-record_all name states (insert j (some (recorded_entry s (old_entry old j))) old) h.1,
)

merged_entry-recorded_entry :
    (default_xdp_mode : String) (s : InterfaceState) (old : Dict String Json)
    → merged_entry default_xdp_mode (recorded_entry s old) ≡ kept_entry default_xdp_mode s
unfolding merged_entry recorded_entry truth
merged_entry-recorded_entry default_xdp_mode s old = rw (xdp_mode, program, tc) refl
  where
    with_mode : Dict String Json
    with_mode = insert "xdp_mode" (string s.xdp_mode) old

    with_program : Dict String Json
    with_program = insert "last_program_id" (program_id_json s.program_id) with_mode

    xdp_mode : lookup "xdp_mode" (recorded_entry s old) ≡ some (string s.xdp_mode)
    xdp_mode =
        lookup-insert "xdp_mode" "tc_egress" (boolean s.tc_egress) with_program
        ∙ lookup-insert "xdp_mode" "last_program_id" (program_id_json s.program_id) with_mode
        ∙ lookup-insert "xdp_mode" "xdp_mode" (string s.xdp_mode) old

    program : lookup "last_program_id" (recorded_entry s old) ≡ some (program_id_json s.program_id)
    program =
        lookup-insert "last_program_id" "tc_egress" (boolean s.tc_egress) with_program
        ∙ lookup-insert "last_program_id" "last_program_id" (program_id_json s.program_id) with_mode

    tc : lookup "tc_egress" (recorded_entry s old) ≡ some (boolean s.tc_egress)
    tc = lookup-insert "tc_egress" "tc_egress" (boolean s.tc_egress) with_program

-- what `select` writes for an interface, by what was recorded of it
abbrev pub kept_or : String → Option InterfaceState → Dict String Json → Dict String Json
kept_or default_xdp_mode none old = merged_entry default_xdp_mode old
kept_or default_xdp_mode (some s) old = kept_entry default_xdp_mode s

kept_entry_of :
    (default_xdp_mode name : String) (recorded : Option InterfaceState) (old : Dict String Object)
    → merged_entry default_xdp_mode (as_dict (get_or (recorded_or recorded old name) (some [])))
      ≡ kept_or default_xdp_mode recorded (old_entry old name)
unfolding old_entry
kept_entry_of default_xdp_mode name none old = refl
kept_entry_of default_xdp_mode name (some s) old =
    merged_entry-recorded_entry default_xdp_mode s (old_entry old name)

-- When a recording is followed by a selection, the machine state has an entry for exactly the
-- selected interfaces. Of a recorded one it has the recorded mode, program and TC state, whatever
-- was known before; of another one what the machine state knew before the recording.
pub lookup-merge_machine_state :
    (args : Recording) (machine : Machine) (selected : List String) (excluded : Dict String String)
    (selection default_xdp_mode name : String)
    → IsDict args.interface_states
    → lookup name (
        as_dict
          (merge_machine_state
            (cmd_record args machine).0
            selected
            excluded
            selection
            default_xdp_mode).interfaces)
      ≡ (if contains name selected
          then some (
              some (
                kept_or default_xdp_mode
                  (lookup name args.interface_states)
                  (old_entry (as_dict machine.interfaces) name)))
          else none)
unfolding merge_machine_state cmd_record old_entry
lookup-merge_machine_state args machine selected excluded selection default_xdp_mode name h =
    lookup-dict_for
      (λ i.
        some (merged_entry default_xdp_mode (old_entry (record_all args.interface_states old) i)))
      name selected
    ∙ ap (λ e. if contains name selected then some (some e) else none)
        (ap (λ o. merged_entry default_xdp_mode (as_dict (get_or o (some []))))
            (lookup-record_all name args.interface_states old h)
          ∙ kept_entry_of default_xdp_mode name (lookup name args.interface_states) old)
  where
    old : Dict String Object
    old = as_dict machine.interfaces
