-- ===== src/Config/ServicesFile.antt =====
-- `_service_map` of auto_xdp/services.py, on the lines of /etc/services that could be read: none if
-- the file could not be opened, and those before the failure if reading fails. `int` is a parameter,
-- which is `none` for a ValueError; a port that is negative is never looked up, and `none` as well.
use mathlib.Core.Option
use auto_xdp.Base.{
  List, Option, String, [], ap, arith, bool_key, contains, get_or, if◌then◌else◌, insert, is_some,
  list_key, lookup, lookup-insert, nat_key, none, not, option_key, or_else, pair_key, refl, some,
  split_once, string_key, words, ℕ, ◌∙◌, ◌∷◌, ◌≡◌,
}
use auto_xdp.Config.{Services, service_name}

-- `raw_line.split("#", 1)[0].strip().split()`
abbrev pub fields_of : String → List String
fields_of raw_line = elim (split_once b'#' raw_line) [
  | none ↦ words raw_line
  | some (line, remark) ↦ words line
]

-- the entry of a line, or `none` for a line that is passed over
unfoldable pub entry_of : (String → Option ℕ) → List String → Option ((String × ℕ) × String)
entry_of int (name ∷ field ∷ aliases) = elim (split_once b'/' field) [
  | none ↦ none
  | some (port_str, proto) ↦
      if not (contains proto ("tcp" ∷ "udp" ∷ []))
      then none
      else Option.map (λ port. ((proto, port), name)) (int port_str)
]
entry_of int fields = none

-- `services.setdefault((proto, port), name)`
unfoldable pub set_default : Option ((String × ℕ) × String) → Services → Services
set_default none services = services
set_default (some (key, name)) services =
    if is_some (lookup key services) then services else insert key name services

unfoldable pub read_services : (String → Option ℕ) → List String → Services → Services
read_services int [] services = services
read_services int (raw_line ∷ lines) services =
    read_services int lines (set_default (entry_of int (fields_of raw_line)) services)

unfoldable pub service_map : (String → Option ℕ) → List String → Services
service_map int lines = read_services int lines []

-- the first entry for a port is the one that counts
first_entry : (String → Option ℕ) → String × ℕ → List String → Option String
first_entry int key [] = none
first_entry int key (raw_line ∷ lines) =
    or_else (lookup key (set_default (entry_of int (fields_of raw_line)) []))
      (first_entry int key lines)

or_else-none : (o : Option String) → o ≡ or_else o none
or_else-none none = refl
or_else-none (some a) = refl

lookup-set_default :
    (key : String × ℕ) (found : Option ((String × ℕ) × String)) (services : Services)
    → lookup key (set_default found services)
      ≡ or_else (lookup key services) (lookup key (set_default found []))
unfolding set_default lookup insert
lookup-set_default key none services = or_else-none (lookup key services)
lookup-set_default key (some (other, name)) services = ground (
  arith,
  (pair_key {A = String} {B = ℕ}).eqb_iff other key,
  lookup-insert key other name services,
)

or_else_assoc : (a b c : Option String) → or_else (or_else a b) c ≡ or_else a (or_else b c)
or_else_assoc none b c = refl
or_else_assoc (some v) b c = refl

lookup-read_services :
    (int : String → Option ℕ) (key : String × ℕ) (lines : List String) (services : Services)
    → lookup key (read_services int lines services)
      ≡ or_else (lookup key services) (first_entry int key lines)
unfolding read_services first_entry
lookup-read_services int key [] services = or_else-none (lookup key services)
lookup-read_services int key (raw_line ∷ lines) services =
    let found = entry_of int (fields_of raw_line) in
    lookup-read_services int key lines (set_default found services)
    ∙ ap (λ o. or_else o (first_entry int key lines)) (lookup-set_default key found services)
    ∙ or_else_assoc (lookup key services) (lookup key (set_default found []))
        (first_entry int key lines)

-- A port has the name of the first line that names it, also when another line follows, and the empty
-- one if none does.
service_name-service_map :
    (int : String → Option ℕ) (lines : List String) (port : ℕ) (proto : String)
    → service_name (service_map int lines) port proto
      ≡ get_or (first_entry int (proto, port) lines) ""
unfolding service_name service_map lookup
service_name-service_map int lines port proto =
    ap (λ o. get_or o "") (lookup-read_services int (proto, port) lines [])
