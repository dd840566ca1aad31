-- ===== src/InstallState/Requests.antt =====
-- The explicit selection of auto_xdp/install_state.py: the requests that are refused and the others.
use auto_xdp.Base.{
  ==_iff, Bool, Bool-cases, Dict, List, Option, Option-cases, String, [], ap, arith, bool_key,
  contains, false, inl, inr, is_some, list_key, lookup, nat_key, none, option_key, pair_key, refl,
  some, string_key, subst, true, ◌&&◌, ◌++◌, ◌==◌, ◌||◌, ◌∷◌, ◌≡◌,
}
use auto_xdp.InstallState.{
  Exclusion, Link, Refusal, Selected, chosen, exclusion_reason, loopback, refused_for,
  select_requested, value_error,
}

-- what holds of a selection that is no ValueError
abbrev pub Chosen : (List String → Dict String Exclusion → Type 0) → Selected → Type 0
Chosen P (chosen selected excluded) = P selected excluded
Chosen P (value_error refusal) = Unit

-- an explicit selection has the requested names, none of which is refused
pub select_requested-Chosen :
    (refuse : String → Option Refusal) (past names : List String) (x : String)
    → Chosen
        (λ selected excluded.
          (contains x selected ≡ (contains x past || contains x names))
          × ((contains x names && is_some (refuse x)) ≡ false))
        (select_requested refuse past names)
unfolding select_requested contains
select_requested-Chosen refuse past [] x = (ground arith, refl)
select_requested-Chosen refuse past (name ∷ names) x = elim (Option-cases (refuse name)) [
  | inr (refusal, bad) ↦ rw (select_requested, bad) tt
  | inl fine ↦
      rw (select_requested, fine)
        (step fine (select_requested refuse (past ++ (name ∷ [])) names)
          (select_requested-Chosen refuse (past ++ (name ∷ [])) names x))
]
  where
    contains-append :
        (xs : List String) → contains x (xs ++ (name ∷ [])) ≡ (contains x xs || name == x)
    contains-append [] = ground arith
    contains-append (y ∷ xs) = ground (arith, contains-append xs)

    refused_here : refuse name ≡ none → (name == x) ≡ true → is_some (refuse x) ≡ false
    refused_here f e = subst (λ n. is_some (refuse n) ≡ false) ((==_iff name x).0 e) (ap is_some f)

    step :
        refuse name ≡ none
        → (s : Selected)
        → Chosen
            (λ selected excluded.
              (contains x selected ≡ (contains x (past ++ (name ∷ [])) || contains x names))
              × ((contains x names && is_some (refuse x)) ≡ false))
            s
        → Chosen
            (λ selected excluded.
              (contains x selected ≡ (contains x past || (name == x || contains x names)))
              × (((name == x || contains x names) && is_some (refuse x)) ≡ false))
            s
    step f (value_error refusal) h = tt
    step f (chosen selected excluded) h = elim (Bool-cases (name == x)) [
      | inl same ↦ ground (arith, h, same, contains-append past, refused_here f same)
      | inr away ↦ ground (arith, h, away, contains-append past)
    ]

pub refused_never :
    (excludes : List String) (allow_container : Bool) (rows : Dict String Link) (name : String)
    → (link : Link) → lookup name rows ≡ some link
    → is_some (refused_for excludes allow_container rows name) ≡ false
    → (contains name excludes ≡ false) × ¬ (exclusion_reason link ≡ some loopback)
unfolding refused_for
refused_never excludes allow_container rows name link found h =
    elim (Bool-cases (contains name excludes)) [
      | inl configured_out ↦ ground (arith, h, configured_out)
      | inr allowed ↦ (allowed, λ inner. ground (arith, loop allowed inner, h))
    ]
  where
    loop :
        contains name excludes ≡ false
        → exclusion_reason link ≡ some loopback
        → is_some (refused_for excludes allow_container rows name) ≡ true
    loop allowed inner = rw (refused_for, allowed, found, inner) refl

pub refused_missing :
    (excludes : List String) (allow_container : Bool) (rows : Dict String Link) (name : String)
    → is_some (refused_for excludes allow_container rows name) ≡ false
    → is_some (lookup name rows) ≡ true
unfolding refused_for
refused_missing excludes allow_container rows name h = elim (Bool-cases (contains name excludes)) [
  | inl configured_out ↦ ground (arith, h, configured_out)
  | inr allowed ↦ elim (Option-cases (lookup name rows)) [
    | inl absent ↦ ground (arith, h, allowed, absent)
    | inr (link, found) ↦ rw found refl
  ]
]
