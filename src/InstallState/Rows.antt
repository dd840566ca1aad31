-- ===== src/InstallState/Rows.antt =====
-- The automatic selection of auto_xdp/install_state.py: the rows that are left out and the others.
use auto_xdp.Base.{
  ==_iff, Bool-cases, Dict, IsDict, List, Option, Option-cases, String, [], ap, arith, bool_key,
  contains, contains-sort, eqb_refl, false, inl, inr, insert, insert-IsDict, is_some, keys,
  list_key, lookup, nat_key, none, not, option_key, pair_key, place, refl, some, sort, string_key,
  subst, sym, text_leb, ◌==◌, ◌||◌, ◌∙◌, ◌∷◌, ◌≡◌,
}
use auto_xdp.InstallState.{
  Exclusion, Link, Selected, chosen, exclusion_reason, left_out, rows_from, sorted_out, split_rows,
  value_error,
}

contains-keys-place :
    (x : String) (e : String × Exclusion) (d : Dict String Exclusion)
    → contains x (keys (place (λ a b. text_leb a.0 b.0) e d)) ≡ (e.0 == x || contains x (keys d))
unfolding place contains keys
contains-keys-place x e [] = refl
contains-keys-place x e (f ∷ d) = ground (arith, contains-keys-place x e d)

contains-keys-sort :
    (x : String) (d : Dict String Exclusion)
    → contains x (keys (sort (λ a b. text_leb a.0 b.0) d)) ≡ contains x (keys d)
unfolding sort contains keys
contains-keys-sort x [] = refl
contains-keys-sort x (e ∷ d) =
    contains-keys-place x e (sort (λ a b. text_leb a.0 b.0) d)
    ∙ ap (λ b. e.0 == x || b) (contains-keys-sort x d)

-- the two parts of the split rows
split_sound :
    (excludes : List String) (rows : Dict String Link) (name : String)
    → lookup name rows ≡ none
    → (contains name (split_rows excludes rows).0 ≡ false)
      × (contains name (keys (split_rows excludes rows).1) ≡ false)
unfolding split_rows lookup contains keys
split_sound excludes [] name h = (refl, refl)
split_sound excludes ((other_name, link) ∷ rows) name h =
    elim (Option-cases (left_out excludes other_name link)) [
      | inl attached ↦ rw attached (ground (arith, h, split_sound excludes rows name))
      | inr (why, out) ↦ rw out (ground (arith, h, split_sound excludes rows name))
    ]

split_exact :
    (excludes : List String) (rows : Dict String Link) (name : String) (link : Link)
    → IsDict rows
    → lookup name rows ≡ some link
    → (contains name (split_rows excludes rows).0 ≡ not (is_some (left_out excludes name link)))
      × (contains name (keys (split_rows excludes rows).1) ≡ is_some (left_out excludes name link))
unfolding split_rows lookup contains keys
split_exact excludes [] name link u h = absurd (cc)
split_exact excludes ((other_name, row) ∷ rows) name link u h =
    elim (Bool-cases (other_name == name)) [
      | inl same ↦ here ((==_iff other_name name).0 same) (ground (arith, h, same))
      | inr away ↦ elim (Option-cases (left_out excludes other_name row)) [
        | inl attached ↦
            rw attached (ground (arith, h, away, split_exact excludes rows name link u.1))
        | inr (why, out) ↦ rw out (ground (arith, h, away, split_exact excludes rows name link u.1))
      ]
    ]
  where
    past :
        (contains other_name (split_rows excludes rows).0 ≡ false)
        × (contains other_name (keys (split_rows excludes rows).1) ≡ false)
    past = split_sound excludes rows other_name u.0

    first :
        (o : Option Exclusion)
        → (contains other_name (sorted_out (other_name, row) o (split_rows excludes rows)).0
            ≡ not (is_some o))
          × (contains other_name
                (keys (sorted_out (other_name, row) o (split_rows excludes rows)).1)
              ≡ is_some o)
    first none = ground (arith, past, eqb_refl other_name)
    first (some why) = ground (arith, past, eqb_refl other_name)

    here :
        other_name ≡ name
        → row ≡ link
        → (contains name (split_rows excludes ((other_name, row) ∷ rows)).0
            ≡ not (is_some (left_out excludes name link)))
          × (contains name (keys (split_rows excludes ((other_name, row) ∷ rows)).1)
              ≡ is_some (left_out excludes name link))
    here e g =
        subst
          (λ n.
            (contains n (split_rows excludes ((other_name, row) ∷ rows)).0
              ≡ not (is_some (left_out excludes n link)))
            × (contains n (keys (split_rows excludes ((other_name, row) ∷ rows)).1)
                ≡ is_some (left_out excludes n link)))
          e
          (subst
            (λ l.
              (contains other_name (split_rows excludes ((other_name, row) ∷ rows)).0
                ≡ not (is_some (left_out excludes other_name l)))
              × (contains other_name (keys (split_rows excludes ((other_name, row) ∷ rows)).1)
                  ≡ is_some (left_out excludes other_name l)))
            g (first (left_out excludes other_name row)))

pub rows_from-IsDict :
    (rows : Dict String Link) (links : List Link) → IsDict rows → IsDict (rows_from rows links)
unfolding rows_from
rows_from-IsDict rows [] u = u
rows_from-IsDict rows (link ∷ links) u = elim (Bool-cases (link.ifname == "")) [
  | inl nameless ↦ rw nameless (rows_from-IsDict rows links u)
  | inr named ↦ rw named (
      rows_from-IsDict (insert link.ifname link rows) links (insert-IsDict link.ifname link rows u))
]

-- the reading of the automatic selection
chosen-parts :
    {a c : List String} {b d : Dict String Exclusion} → chosen a b ≡ chosen c d → (a ≡ c) × (b ≡ d)
chosen-parts e = (ap selected_of e, ap excluded_of e)
  where
    selected_of : Selected → List String
    selected_of (chosen selected excluded) = selected
    selected_of (value_error refusal) = []

    excluded_of : Selected → Dict String Exclusion
    excluded_of (chosen selected excluded) = excluded
    excluded_of (value_error refusal) = []

-- the automatic selection, whatever asked for it
pub automatic_parts :
    (rows : Dict String Link) (excluded_names selected : List String)
    → (excluded : Dict String Exclusion) (name : String) (link : Link) → IsDict rows
    → lookup name rows ≡ some link
    → chosen
        (sort text_leb (split_rows excluded_names rows).0)
        (sort (λ a b. text_leb a.0 b.0) (split_rows excluded_names rows).1)
      ≡ chosen selected excluded
    → (contains name selected ≡ not (is_some (left_out excluded_names name link)))
      × (contains name (keys excluded) ≡ is_some (left_out excluded_names name link))
automatic_parts rows excluded_names selected excluded name link u h e = (
  ap (contains name) (sym (chosen-parts e).0) ∙ contains-sort text_leb name parts.0 ∙ exact.0,
  ap (λ d. contains name (keys d)) (sym (chosen-parts e).1)
      ∙ contains-keys-sort name parts.1
      ∙ exact.1,
)
  where
    parts : List String × Dict String Exclusion
    parts = split_rows excluded_names rows

    exact :
        (contains name parts.0 ≡ not (is_some (left_out excluded_names name link)))
        × (contains name (keys parts.1) ≡ is_some (left_out excluded_names name link))
    exact = split_exact excluded_names rows name link u h

pub left_out_never :
    (excludes : List String) (name : String) (link : Link)
    → is_some (left_out excludes name link) ≡ false
    → (contains name excludes ≡ false) × (exclusion_reason link ≡ none)
unfolding left_out
left_out_never excludes name link h = elim (Bool-cases (contains name excludes)) [
  | inl configured_out ↦ ground (arith, h, configured_out)
  | inr allowed ↦ elim (Option-cases (exclusion_reason link)) [
    | inl safe ↦ (allowed, safe)
    | inr (why, out) ↦ ground (arith, h, allowed, out)
  ]
]
