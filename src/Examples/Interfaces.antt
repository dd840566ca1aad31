-- ===== src/Examples/Interfaces.antt =====
-- The selection of auto_xdp/install_state.py on a host with a loopback, an Ethernet and a container
-- interface.
use auto_xdp.Base.{
  Dict, List, Option, String, [], add, bool_key, contains, false, if◌then◌else◌, insert, keys,
  list_key, lookup, nat_key, none, option_key, pair_key, place, refl, some, sort, split, split_once,
  string_key, text_leb, true, ℕ, ◌==◌, ◌∷◌, ◌≡◌,
}
use auto_xdp.InstallState.{
  Exclusion, Link, chosen, container_bridge, container_interface, distinct, exclusion_reason,
  interface_down, is_container_bridge, is_hex_text, left_out, loopback, needs_opt_in, refused_for,
  rows_from, select_interfaces, select_requested, split_rows, starts_with, starts_with_any, unsafe,
  value_error,
}
use auto_xdp.InstallState.Machine.{
  InterfaceState, Machine, Recording, as_dict, cmd_record, merge_machine_state, null, string,
}
use auto_xdp.InstallState.Machine.Arguments.{parse_interface_state, parse_payload, state_of}
use auto_xdp.InstallState.Machine.Recorded.{kept_entry, lookup-merge_machine_state}
use auto_xdp.InstallState.Selection.{select_interfaces_automatic, select_interfaces_safe}

abbrev loopback_link : Link
loopback_link = record {
  ifname = "lo";
  lowered = "lo";
  flags = "LOOPBACK" ∷ "UP" ∷ [];
  kind = "loopback";
  operstate = "UNKNOWN";
}

abbrev ethernet_link : Link
ethernet_link = record {
  ifname = "eth0";
  lowered = "eth0";
  flags = "BROADCAST" ∷ "UP" ∷ [];
  kind = "ether";
  operstate = "UP";
}

abbrev idle_link : Link
idle_link = record {
  ifname = "eth1";
  lowered = "eth1";
  flags = "BROADCAST" ∷ [];
  kind = "ether";
  operstate = "DOWN";
}

abbrev docker_link : Link
docker_link = record {
  ifname = "docker0";
  lowered = "docker0";
  flags = "UP" ∷ [];
  kind = "bridge";
  operstate = "UP";
}

abbrev network_link : Link
network_link = record {
  ifname = "br-0123456789ab";
  lowered = "br-0123456789ab";
  flags = "UP" ∷ [];
  kind = "bridge";
  operstate = "UP";
}

abbrev sample_links : List Link
sample_links = loopback_link ∷ network_link ∷ ethernet_link ∷ idle_link ∷ docker_link ∷ []

abbrev sample_selection : List String
sample_selection = "docker0" ∷ "eth0" ∷ []

abbrev sample_excluded : Dict String Exclusion
sample_excluded =
    ("br-0123456789ab", unsafe container_bridge)
    ∷ ("docker0", unsafe container_interface)
    ∷ ("eth1", interface_down)
    ∷ ("lo", unsafe loopback)
    ∷ []

sample_links_selected :
    select_interfaces sample_links [] false [] ≡ chosen ("eth0" ∷ []) sample_excluded
unfolding select_interfaces rows_from distinct split_rows left_out exclusion_reason starts_with_any
    starts_with is_container_bridge is_hex_text contains insert lookup sort place add text_leb
sample_links_selected = refl

container_needs_opt_in :
    select_interfaces sample_links ("eth0" ∷ "docker0" ∷ []) false []
    ≡ value_error (needs_opt_in "docker0" container_interface)
unfolding select_interfaces rows_from distinct split_rows left_out exclusion_reason starts_with_any
    starts_with is_container_bridge is_hex_text contains insert lookup select_requested refused_for
    add text_leb
container_needs_opt_in = refl

sample_requested :
    select_interfaces sample_links ("docker0" ∷ "eth0" ∷ "docker0" ∷ []) true []
    ≡ chosen sample_selection []
unfolding select_interfaces rows_from distinct split_rows left_out exclusion_reason starts_with_any
    starts_with is_container_bridge is_hex_text contains insert lookup select_requested refused_for
    add text_leb
sample_requested = refl

select_interfaces_automatic_example :
    (contains {K = String} "docker0" ("eth0" ∷ []) ≡ false)
    × (contains {K = String} "docker0" (keys sample_excluded) ≡ true)
unfolding rows_from insert lookup contains exclusion_reason is_container_bridge starts_with_any
    starts_with
select_interfaces_automatic_example =
    select_interfaces_automatic sample_links false [] ("eth0" ∷ []) sample_excluded "docker0"
      docker_link refl sample_links_selected

select_interfaces_safe_example :
    (contains {K = String} "docker0" [] ≡ false) × ¬ (exclusion_reason docker_link ≡ some loopback)
unfolding rows_from insert lookup contains
select_interfaces_safe_example =
    select_interfaces_safe sample_links ("docker0" ∷ "eth0" ∷ "docker0" ∷ []) true []
      sample_selection [] "docker0" docker_link refl sample_requested refl

abbrev eth0_state : InterfaceState
eth0_state = record { xdp_mode = "native"; program_id = some 57; tc_egress = true; verified = true }

abbrev sample_recording : Recording
sample_recording = record {
  interface_states = ("eth0", eth0_state) ∷ [];
  requested_backend = "auto";
  active_backend = "xdp";
  generation = "12";
  fallback_reason = none;
}

-- eth0 was known in another mode, eth1 is no object
abbrev sample_machine : Machine
sample_machine = record {
  interfaces = some (
      ("eth0", some (("xdp_mode", string "generic") ∷ ("tc_egress", null) ∷ []))
      ∷ ("eth1", none)
      ∷ []);
  selection = none;
  excluded = none;
}

lookup-merge_machine_state_example :
    lookup "eth0" (
      as_dict
        (merge_machine_state
          (cmd_record sample_recording sample_machine).0
          ("eth1" ∷ "eth0" ∷ [])
          []
          "auto"
          "auto").interfaces)
    ≡ some (some (kept_entry "auto" eth0_state))
unfolding lookup contains
lookup-merge_machine_state_example =
    lookup-merge_machine_state sample_recording sample_machine ("eth1" ∷ "eth0" ∷ []) [] "auto"
      "auto" "eth0" (refl, tt)

-- `int` knows one number
abbrev sample_int : String → Option ℕ
sample_int digits = if digits == "57" then some 57 else none

eth0_parsed : parse_interface_state sample_int "eth0=native:57:attached" ≡ some ("eth0", eth0_state)
unfolding parse_interface_state parse_payload state_of split split_once contains
eth0_parsed = refl

no_program_parsed :
    parse_interface_state sample_int "eth1=generic:-:attached"
    ≡ some ("eth1", record eth0_state { xdp_mode = "generic"; program_id = none; verified = false })
unfolding parse_interface_state parse_payload state_of split split_once contains
no_program_parsed = refl

malformed_refused :
    (parse_interface_state sample_int "eth0" ≡ none)
    × (parse_interface_state sample_int "eth0=native:57" ≡ none)
    × (parse_interface_state sample_int "eth0=skb:57:attached" ≡ none)
    × (parse_interface_state sample_int "eth0=native:x:attached" ≡ none)
unfolding parse_interface_state parse_payload state_of split split_once contains
malformed_refused = (refl, refl, refl, refl)
