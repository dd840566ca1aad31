-- ===== src/ConfigFile.antt =====
-- Reading of the configuration in auto_xdp/config.py: the values of a TOML file, Python's
-- conversions of them, and the coercions, each of which may raise. What the records of this
-- development cannot hold (a negative limit or port, a protocol that is no text) is `beyond` them.
pub mod Tables
pub mod Sections
pub mod Records
pub mod Globals
pub mod Steps
pub mod Bounds
pub mod Reload
use Prim.Native.Char.{code}
use auto_xdp.Base.{
  Bool, List, Option, String, [], bool_key, contains, false, if◌then◌else◌, leb, list_key, ltb,
  nat_key, none, not, option_key, pair_key, some, string_key, true, ℕ, ◌==◌, ◌||◌, ◌∷◌,
}
use auto_xdp.Bpf.Kernel.{has_colon}
use auto_xdp.Config.{Float}

mutual
  pub data Toml (V : Type 0) : Type 0 where
    text : String → Toml V
    whole : ℕ → Toml V
    minus : ℕ → Toml V
    real : V → Toml V
    truth : Bool → Toml V
    -- a date or a time, as `str` prints it
    moment : String → Toml V
    array : Items V → Toml V
    table : Table V → Toml V

  pub data Items (V : Type 0) : Type 0 where
    no_item : Items V
    item : Toml V → Items V → Items V

  pub data Table (V : Type 0) : Type 0 where
    no_entry : Table V
    entry : String → Toml V → Table V → Table V

-- `int(value)`: `minus n` is the number below zero by `n + 1`; only the ValueError and the TypeError
-- are caught by the coercions
pub data IntResult : Type 0 where
  natural : ℕ → IntResult
  negative : ℕ → IntResult
  value_error : IntResult
  overflow_error : IntResult

-- `float(value)`: the OverflowError of a whole number that is too large is not caught
pub data FloatResult (V : Type 0) : Type 0 where
  parsed : V → FloatResult V
  no_float : FloatResult V
  float_overflow : FloatResult V

pub data Load {ℓ} (A : Type ℓ) : Type ℓ where
  loaded : A → Load A
  raises : Load A
  beyond : Load A

infixl 1 ◌>>=◌
unfoldable pub ◌>>=◌ {ℓ κ} : {A : Type ℓ} {B : Type κ} → Load A → (A → Load B) → Load B
loaded a >>= f = f a
raises >>= f = raises
beyond >>= f = beyond

-- What Python does with texts and floats, and ipaddress with addresses.
pub record Python (F : Float) : Type 0 where
  -- a whole number, and the one below zero by `n + 1`; `none` is the OverflowError
  pub of_natural : ℕ → Option F.Val
  pub of_negative : ℕ → Option F.Val
  pub float_of_text : String → Option F.Val
  pub int_of_text : String → IntResult
  pub trunc : F.Val → IntResult
  -- the float with this whole part and this tenth
  pub literal : ℕ → ℕ → F.Val
  -- `int(value * 1_000_000 / 8)`
  pub byte_rate : F.Val → IntResult
  pub is_zero : F.Val → Bool
  pub below_zero : F.Val → Bool
  pub str_of : Toml F.Val → String
  pub lower : String → String
  -- `IPv4Network`, `IPv6Network` as `normalize_cidr` prints them, and `IPv4Address`
  pub ipv4_network : String → Option String
  pub ipv6_network : String → Option String
  pub ipv4_address : String → Option String

module _ {V : Type 0} where
  -- `table.get(key, default)` of a TOML table; anything else has no such method
  unfoldable pub get_entry : String → Table V → Toml V → Toml V
  get_entry key no_entry default = default
  get_entry key (entry name value entries) default =
      let rest = get_entry key entries default in if name == key then value else rest

  unfoldable pub get : String → Toml V → Toml V → Load (Toml V)
  get key (table entries) default = loaded (get_entry key entries default)
  get key value default = raises

  abbrev pub empty_table : Toml V
  empty_table = table no_entry

  abbrev pub empty_array : Toml V
  empty_array = array no_item

-- a number that the records hold
abbrev pub int_limit : IntResult → Load ℕ
int_limit (natural n) = loaded n
int_limit (negative n) = beyond
int_limit value_error = raises
int_limit overflow_error = raises

abbrev pub or_default : (ℕ → Bool) → ℕ → IntResult → Load ℕ
or_default good default (natural n) = loaded (if good n then n else default)
or_default good default (negative n) = loaded default
or_default good default value_error = loaded default
or_default good default overflow_error = raises

abbrev pub log_levels : List String
log_levels = "debug" ∷ "info" ∷ "warning" ∷ "error" ∷ []

abbrev pub backend_names : List String
backend_names = "auto" ∷ "xdp" ∷ "nftables" ∷ []

module _ {F : Float} (python : Python F) where
  abbrev pub as_int : Toml F.Val → IntResult
  as_int (text s) = python.int_of_text s
  as_int (whole n) = natural n
  as_int (minus n) = negative n
  as_int (real v) = python.trunc v
  as_int (truth b) = natural (if b then 1 else 0)
  as_int (moment s) = value_error
  as_int (array xs) = value_error
  as_int (table t) = value_error

  abbrev pub float_of : Option F.Val → FloatResult F.Val → FloatResult F.Val
  float_of none error = error
  float_of (some v) error = parsed v

  -- `float(value)`; a TypeError counts as the ValueError
  abbrev pub as_float : Toml F.Val → FloatResult F.Val
  as_float (text s) = float_of (python.float_of_text s) no_float
  as_float (whole n) = float_of (python.of_natural n) float_overflow
  as_float (minus n) = float_of (python.of_negative n) float_overflow
  as_float (real v) = parsed v
  as_float (truth b) = float_of (python.of_natural (if b then 1 else 0)) float_overflow
  as_float (moment s) = no_float
  as_float (array xs) = no_float
  as_float (table t) = no_float

  abbrev pub as_bool : Toml F.Val → Bool
  as_bool (text s) = not (s == "")
  as_bool (whole n) = not (n == 0)
  as_bool (minus n) = true
  as_bool (real v) = not (python.is_zero v)
  as_bool (truth b) = b
  as_bool (moment s) = true
  as_bool (array no_item) = false
  as_bool (array (item x xs)) = true
  as_bool (table no_entry) = false
  as_bool (table (entry name x t)) = true

  unfoldable pub coerce_positive_int : Toml F.Val → ℕ → Load ℕ
  coerce_positive_int value default = or_default (ltb 0) default (as_int value)

  -- `value.removeprefix("/")` of a text
  abbrev pub remove_slash : Toml F.Val → Toml F.Val
  remove_slash (text String.[]) = text String.[]
  remove_slash (text (String.◌∷◌ c s)) = if code c == b'/' then text s else text (String.◌∷◌ c s)
  remove_slash value = value

  unfoldable pub coerce_prefix_len : Toml F.Val → ℕ → ℕ → Load ℕ
  coerce_prefix_len value default maximum =
      or_default (λ n. leb n maximum) default (as_int (remove_slash value))

  abbrev pub float_or : (F.Val → Bool) → F.Val → FloatResult F.Val → Load F.Val
  float_or bad default (parsed v) = loaded (if bad v then default else v)
  float_or bad default no_float = loaded default
  float_or bad default float_overflow = raises

  unfoldable pub coerce_positive_float : Toml F.Val → F.Val → Load F.Val
  coerce_positive_float value default =
      float_or (λ v. python.below_zero v || python.is_zero v) default (as_float value)

  unfoldable pub coerce_nonnegative_float : Toml F.Val → F.Val → Load F.Val
  coerce_nonnegative_float value default = float_or python.below_zero default (as_float value)

  -- one of some texts, or the default
  unfoldable pub coerce_word : List String → String → Toml F.Val → String
  coerce_word words default value =
      let word = python.lower (python.str_of value) in if contains word words then word else default

  unfoldable pub coerce_log_level : Toml F.Val → String
  coerce_log_level = coerce_word log_levels "warning"

  unfoldable pub coerce_backend : Toml F.Val → String
  coerce_backend = coerce_word backend_names "auto"

  unfoldable pub normalize_cidr : String → Load String
  normalize_cidr cidr =
      elim (if has_colon cidr then python.ipv6_network cidr else python.ipv4_network cidr) [
        | none ↦ raises
        | some net ↦ loaded net
      ]

  -- `normalize_cidr` of a value: what is no text raises
  abbrev pub cidr_of : Toml F.Val → Load String
  cidr_of (text s) = normalize_cidr s
  cidr_of (whole n) = raises
  cidr_of (minus n) = raises
  cidr_of (real v) = raises
  cidr_of (truth b) = raises
  cidr_of (moment s) = raises
  cidr_of (array xs) = raises
  cidr_of (table t) = raises
