-- ===== src/InstallState.antt =====
-- auto_xdp/install_state.py: which interfaces of the host the program is attached to.
pub mod Requests
pub mod Rows
pub mod Selection
pub mod Machine
use Prim.Native.Char.{code}
use auto_xdp.Base.{
  Bool, Dict, List, Option, String, [], add, bool_key, contains, false, if◌then◌else◌, insert, leb,
  list_key, lookup, nat_key, none, not, option_key, pair_key, some, sort, string_key, text_leb,
  true, ℕ, ◌&&◌, ◌++◌, ◌-◌, ◌==◌, ◌||◌, ◌∷◌,
}

-- What the selection reads of an entry of `ip -json link`: the name and its lower case, the flags
-- in upper case, the kind as `_link_kind` gives it, and the state in upper case.
pub record Link : Type 0 where
  pub ifname : String
  pub lowered : String
  pub flags : List String
  pub kind : String
  pub operstate : String

-- `text.startswith(prefix)`
unfoldable pub starts_with : String → String → Bool
starts_with text String.[] = true
starts_with String.[] (String.◌∷◌ c prefix) = false
starts_with (String.◌∷◌ d text) (String.◌∷◌ c prefix) = code d == code c && starts_with text prefix

unfoldable pub starts_with_any : String → List String → Bool
starts_with_any text [] = false
starts_with_any text (prefix ∷ prefixes) = starts_with text prefix || starts_with_any text prefixes

abbrev container_names : List String
container_names =
    "docker" ∷ "veth" ∷ "virbr" ∷ "cni" ∷ "flannel" ∷ "cali" ∷ "kube-ipvs" ∷ "podman" ∷ []

abbrev virtual_kinds : List String
virtual_kinds = "veth" ∷ "dummy" ∷ "ifb" ∷ []

abbrev is_hex : ℕ → Bool
is_hex c = leb 48 c && leb c 57 || leb 97 c && leb c 102

-- `[0-9a-f]{n,}` for the whole text
unfoldable pub is_hex_text : ℕ → String → Bool
is_hex_text n String.[] = n == 0
is_hex_text n (String.◌∷◌ c text) = is_hex (code c) && is_hex_text (n - 1) text

-- `re.fullmatch(r"br-[0-9a-f]{12,}", text)`
unfoldable pub is_container_bridge : String → Bool
is_container_bridge (String.◌∷◌ b (String.◌∷◌ r (String.◌∷◌ dash text))) =
    code b == b'b' && code r == b'r' && code dash == b'-' && is_hex_text 12 text
is_container_bridge text = false

pub data Reason : Type 0 where
  loopback : Reason
  virtual_kind : String → Reason
  container_bridge : Reason
  container_interface : Reason

unfoldable pub exclusion_reason : Link → Option Reason
exclusion_reason link =
    if link.ifname == "lo" || contains "LOOPBACK" link.flags || link.kind == "loopback"
    then some loopback
    else if contains link.kind virtual_kinds
    then some (virtual_kind link.kind)
    else if is_container_bridge link.lowered
    then some container_bridge
    else if starts_with_any link.lowered container_names
    then some container_interface
    else none

-- why an interface is left out of the automatic selection
pub data Exclusion : Type 0 where
  configured : Exclusion
  unsafe : Reason → Exclusion
  interface_down : Exclusion

-- the ValueError of an explicit selection
pub data Refusal : Type 0 where
  in_both : String → Refusal
  missing : String → Refusal
  is_loopback : Refusal
  needs_opt_in : String → Reason → Refusal

pub data Selected : Type 0 where
  chosen : List String → Dict String Exclusion → Selected
  value_error : Refusal → Selected

-- `{link["ifname"]: link for link in links if link["ifname"]}`
unfoldable pub rows_from : Dict String Link → List Link → Dict String Link
rows_from rows [] = rows
rows_from rows (link ∷ links) =
    rows_from (if link.ifname == "" then rows else insert link.ifname link rows) links

-- `list(dict.fromkeys(item for item in items if item))`
unfoldable pub distinct : List String → List String → List String
distinct seen [] = []
distinct seen (item ∷ items) =
    let rest = distinct (add item seen) items in
    if item == "" || contains item seen then rest else item ∷ rest

refusal_of : Bool → String → Option Reason → Option Refusal
refusal_of allow_container name none = none
refusal_of allow_container name (some loopback) = some is_loopback
refusal_of allow_container name (some reason) =
    if allow_container then none else some (needs_opt_in name reason)

-- why an interface cannot be asked for
unfoldable pub refused_for : List String → Bool → Dict String Link → String → Option Refusal
unfolding refusal_of
refused_for excludes allow_container rows name =
    if contains name excludes then some (in_both name) else elim (lookup name rows) [
      | none ↦ some (missing name)
      | some link ↦ refusal_of allow_container name (exclusion_reason link)
    ]

unfoldable pub select_requested : (String → Option Refusal) → List String → List String → Selected
select_requested refuse selected [] = chosen selected []
select_requested refuse selected (name ∷ names) = elim (refuse name) [
  | some refusal ↦ value_error refusal
  | none ↦ select_requested refuse (selected ++ (name ∷ [])) names
]

-- why an interface is left out, if it is
unfoldable pub left_out : List String → String → Link → Option Exclusion
left_out excludes name link =
    if contains name excludes then some configured else elim (exclusion_reason link) [
      | some reason ↦ some (unsafe reason)
      | none ↦
          if not (contains "UP" link.flags) && not (contains link.operstate ("UP" ∷ "UNKNOWN" ∷ []))
          then some interface_down
          else none
    ]

abbrev pub sorted_out :
    String × Link
    → Option Exclusion
    → List String × Dict String Exclusion
    → List String × Dict String Exclusion
sorted_out row none (selected, excluded) = (row.0 ∷ selected, excluded)
sorted_out row (some why) (selected, excluded) = (selected, (row.0, why) ∷ excluded)

unfoldable pub split_rows : List String → Dict String Link → List String × Dict String Exclusion
split_rows excludes [] = ([], [])
split_rows excludes ((name, link) ∷ rows) =
    sorted_out (name, link) (left_out excludes name link) (split_rows excludes rows)

unfoldable pub select_interfaces : List Link → List String → Bool → List String → Selected
select_interfaces links explicit allow_container excluded_names =
    let rows = rows_from [] links in
    let requested = distinct [] explicit in
    let (selected, excluded) = split_rows excluded_names rows in
    if requested == []
    then chosen (sort text_leb selected) (sort (λ a b. text_leb a.0 b.0) excluded)
    else select_requested (refused_for excluded_names allow_container rows) [] requested
