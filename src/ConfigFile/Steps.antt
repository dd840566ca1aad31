-- ===== src/ConfigFile/Steps.antt =====
-- Steps of the reading of a configuration, for what holds when it returns.
-- where the load returned
use auto_xdp.Base.{
  Bool, Bool-cases, List, String, arith, bool_key, contains, inl, inr, leb, list_key, ltb, nat_key,
  option_key, pair_key, string_key, true, ℕ, ◌<◌, ◌≡◌, ◌≤◌,
}
use auto_xdp.Config.{Float}
use auto_xdp.ConfigFile.{
  IntResult, Load, Python, Toml, as_int, beyond, coerce_positive_int, coerce_prefix_len,
  coerce_word, get, loaded, natural, negative, or_default, overflow_error, raises, remove_slash,
  value_error, whole, ◌>>=◌,
}
use auto_xdp.ConfigFile.Globals.{nonnegative_entry, positive_entry, prefix_entry}

abbrev pub Returns {ℓ κ} : {A : Type ℓ} → (A → Type κ) → Load A → Type κ
Returns P (loaded a) = P a
Returns P raises = Unit
Returns P beyond = Unit

pub Returns-step {ℓ κ} :
    {A : Type ℓ} {B : Type κ} (P : A → Type 0) (Q : B → Type 0) (x : Load A) (f : A → Load B)
    → Returns P x
    → ((a : A) → P a → Returns Q (f a))
    → Returns Q (x >>= f)
unfolding ◌>>=◌
Returns-step P Q (loaded a) f h k = k a h
Returns-step P Q raises f h k = tt
Returns-step P Q beyond f h k = tt

-- a step of which nothing is asked
pub Returns-next {ℓ κ} :
    {A : Type ℓ} {B : Type κ} (Q : B → Type 0) (x : Load A) (f : A → Load B)
    → ((a : A) → Returns Q (f a))
    → Returns Q (x >>= f)
unfolding ◌>>=◌
Returns-next Q (loaded a) f k = k a
Returns-next Q raises f k = tt
Returns-next Q beyond f k = tt

or_default_within :
    (P : ℕ → Type 0) (good : ℕ → Bool) (default : ℕ) (i : IntResult)
    → ((n : ℕ) → good n ≡ true → P n)
    → P default
    → Returns P (or_default good default i)
or_default_within P good default (natural n) k h = elim (Bool-cases (good n)) [
  | inl fits ↦ rw fits (k n fits)
  | inr bad ↦ rw bad h
]
or_default_within P good default (negative n) k h = h
or_default_within P good default value_error k h = h
or_default_within P good default overflow_error k h = tt

pub coerce_word_within :
    {F : Float} (python : Python F) (words : List String) (default : String) (value : Toml F.Val)
    → contains default words ≡ true
    → contains (coerce_word python words default value) words ≡ true
unfolding coerce_word
coerce_word_within python words default value h =
    elim (Bool-cases (contains (python.lower (python.str_of value)) words)) [
      | inl known ↦ rw known known
      | inr unknown ↦ rw unknown h
    ]

module _ {F : Float} (python : Python F) where
  pub positive_step :
      {B : Type 0} (name : String) (section : Toml F.Val) (default : ℕ)
      → (Q : B → Type 0) (f : ℕ → Load B) → 0 < default
      → ((n : ℕ) → 0 < n → Returns Q (f n))
      → Returns Q (positive_entry python name section default >>= f)
  unfolding positive_entry coerce_positive_int
  positive_step name section default Q f h k =
      Returns-step (λ n. 0 < n) Q (positive_entry python name section default) f
        (Returns-next (λ n. 0 < n) (get name section (whole default))
          (λ value. coerce_positive_int python value default)
          (λ value.
            or_default_within (λ n. 0 < n) (ltb 0) default (as_int python value)
              (λ n good. ground (arith, good)) h))
        k

  pub prefix_step :
      {B : Type 0} (name old_name : String) (rl : Toml F.Val) (maximum : ℕ)
      → (Q : B → Type 0) (f : ℕ → Load B) → ((n : ℕ) → n ≤ maximum → Returns Q (f n))
      → Returns Q (prefix_entry python name old_name rl maximum >>= f)
  unfolding prefix_entry coerce_prefix_len
  prefix_step name old_name rl maximum Q f k =
      Returns-step (λ n. n ≤ maximum) Q (prefix_entry python name old_name rl maximum) f
        (Returns-next (λ n. n ≤ maximum) (get old_name rl (whole maximum)) _
          (λ old_value.
            Returns-next (λ n. n ≤ maximum) (get name rl old_value) _
              (λ value.
                or_default_within (λ n. n ≤ maximum) (λ n. leb n maximum) maximum
                  (as_int python (remove_slash python value)) (λ n good. ground (arith, good))
                  (omega arith))))
        k

  pub any_entry :
      {B : Type 0} (Q : B → Type 0) (name : String) (section : Toml F.Val) (default : F.Val)
      (f : F.Val → Load B)
      → ((v : F.Val) → Returns Q (f v))
      → Returns Q (nonnegative_entry python name section default >>= f)
  any_entry Q name section default f k =
      Returns-next Q (nonnegative_entry python name section default) f k
