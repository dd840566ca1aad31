-- ===== src/InstallState/Selection.antt =====
-- What `select_interfaces` of auto_xdp/install_state.py selects.
use auto_xdp.Base.{
  Bool, Dict, List, Option, Option-cases, String, [], ap, arith, bool_key, contains, false,
  if◌then◌else◌, inl, inr, is_some, keys, list_key, lookup, nat_key, none, not, option_key,
  pair_key, refl, some, sort, string_key, subst, sym, text_leb, true, ◌&&◌, ◌==◌, ◌||◌, ◌∙◌, ◌∷◌,
  ◌≡◌,
}
use auto_xdp.InstallState.{
  Exclusion, Link, Refusal, chosen, distinct, exclusion_reason, left_out, loopback, refused_for,
  rows_from, select_interfaces, select_requested, split_rows,
}
use auto_xdp.InstallState.Requests.{Chosen, refused_missing, refused_never, select_requested-Chosen}
use auto_xdp.InstallState.Rows.{automatic_parts, left_out_never, rows_from-IsDict}

not-not : (b : Bool) → not (not b) ≡ b
not-not true = refl
not-not false = refl

left_out_exactly :
    (excluded_names : List String) (name : String) (link : Link)
    → not (is_some (left_out excluded_names name link)) ≡ (
        not (contains name excluded_names)
        && not (is_some (exclusion_reason link))
        && (contains "UP" link.flags || contains link.operstate ("UP" ∷ "UNKNOWN" ∷ [])))
unfolding left_out
left_out_exactly excluded_names name link = elim (Option-cases (exclusion_reason link)) [
  | inl safe ↦ ground (arith, safe)
  | inr (why, out) ↦ ground (arith, out)
]

-- Without a request, an interface that the links name is selected exactly when it is not among the
-- configured excludes, has no reason to be excluded, and has the flag UP or is in the state UP or
-- UNKNOWN; otherwise it is reported as excluded.
pub select_interfaces_automatic :
    (links : List Link) (allow_container : Bool) (excluded_names selected : List String)
    → (excluded : Dict String Exclusion) (name : String) (link : Link)
    → lookup name (rows_from [] links) ≡ some link
    → select_interfaces links [] allow_container excluded_names ≡ chosen selected excluded
    → let attached =
        not (contains name excluded_names)
        && not (is_some (exclusion_reason link))
        && (contains "UP" link.flags || contains link.operstate ("UP" ∷ "UNKNOWN" ∷ [])) in
      (contains name selected ≡ attached) × (contains name (keys excluded) ≡ not attached)
unfolding select_interfaces distinct
select_interfaces_automatic links allow_container excluded_names selected excluded name link h e =
    let parts =
      automatic_parts (rows_from [] links) excluded_names selected excluded name link
        (rows_from-IsDict [] links tt) h e in
    let exactly = left_out_exactly excluded_names name link in
    (
      parts.0 ∙ exactly,
      parts.1 ∙ sym (not-not (is_some (left_out excluded_names name link))) ∙ ap not exactly,
    )

-- Whatever was asked for, a selection that is no ValueError attaches no interface of the configured excludes and no loopback interface
pub select_interfaces_safe :
    (links : List Link) (explicit : List String) (allow_container : Bool)
    → (excluded_names selected : List String) (excluded : Dict String Exclusion)
    → (name : String) (link : Link) → lookup name (rows_from [] links) ≡ some link
    → select_interfaces links explicit allow_container excluded_names ≡ chosen selected excluded
    → contains name selected ≡ true
    → (contains name excluded_names ≡ false) × ¬ (exclusion_reason link ≡ some loopback)
unfolding select_interfaces contains
select_interfaces_safe links explicit allow_container excluded_names selected excluded name link h e
      c =
    by_case (distinct [] explicit == []) e
  where
    rows : Dict String Link
    rows = rows_from [] links

    asked_for :
        (contains name selected ≡ contains name (distinct [] explicit))
          × ((contains name (distinct [] explicit)
                && is_some (refused_for excluded_names allow_container rows name))
              ≡ false)
        → (contains name excluded_names ≡ false) × ¬ (exclusion_reason link ≡ some loopback)
    asked_for r =
        refused_never excluded_names allow_container rows name link h (ground (arith, r, c))

    by_links :
        (contains name excluded_names ≡ false) × (exclusion_reason link ≡ none)
        → (contains name excluded_names ≡ false) × ¬ (exclusion_reason link ≡ some loopback)
    by_links (allowed, safe) = (allowed, λ inner. absurd (cc))

    by_case :
        (b : Bool)
        → (if b
            then chosen
                (sort text_leb (split_rows excluded_names rows).0)
                (sort (λ a b. text_leb a.0 b.0) (split_rows excluded_names rows).1)
            else select_requested
                (refused_for excluded_names allow_container rows)
                []
                (distinct [] explicit))
          ≡ chosen selected excluded
        → (contains name excluded_names ≡ false) × ¬ (exclusion_reason link ≡ some loopback)
    by_case true e = by_links (
        left_out_never excluded_names name link (
          ground (
            arith,
            c,
            (automatic_parts rows excluded_names selected excluded name link
                (rows_from-IsDict [] links tt) h e).0,
          )))
    by_case false e = asked_for (
        subst
          (Chosen (λ selected excluded.
            (contains name selected ≡ contains name (distinct [] explicit))
            × ((contains name (distinct [] explicit)
                  && is_some (refused_for excluded_names allow_container rows name))
                ≡ false)))
          e
          (select_requested-Chosen (refused_for excluded_names allow_container rows) []
            (distinct [] explicit) name))

-- A request for interfaces that is no ValueError selects the requested names and no others, each an interface that the links name
pub select_interfaces_requested :
    (links : List Link) (first : String) (more : List String) (allow_container : Bool)
    → (excluded_names selected : List String) (excluded : Dict String Exclusion) (name : String)
    → (first == "") ≡ false
    → select_interfaces links (first ∷ more) allow_container excluded_names
      ≡ chosen selected excluded
    → (contains name selected ≡ contains name (distinct [] (first ∷ more)))
      × (contains name selected ≡ true → is_some (lookup name (rows_from [] links)) ≡ true)
unfolding select_interfaces contains distinct
select_interfaces_requested links first more allow_container excluded_names selected excluded name
      named e =
    parts (
      subst (Chosen P) (subst reading nonempty e)
        (select_requested-Chosen refuse [] (distinct [] (first ∷ more)) name))
  where
    rows : Dict String Link
    rows = rows_from [] links

    refuse : String → Option Refusal
    refuse = refused_for excluded_names allow_container rows

    nonempty : (distinct [] (first ∷ more) == []) ≡ false
    nonempty = rw (distinct, named) refl

    reading : Bool → Type 0
    reading b =
        (if b
          then chosen (sort text_leb (split_rows excluded_names rows).0)
              (sort (λ a b. text_leb a.0 b.0) (split_rows excluded_names rows).1)
          else select_requested refuse [] (distinct [] (first ∷ more)))
        ≡ chosen selected excluded

    P : List String → Dict String Exclusion → Type 0
    P names left =
        (contains name names ≡ contains name (distinct [] (first ∷ more)))
        × ((contains name (distinct [] (first ∷ more)) && is_some (refuse name)) ≡ false)

    parts :
        P selected excluded
        → (contains name selected ≡ contains name (distinct [] (first ∷ more)))
          × (contains name selected ≡ true → is_some (lookup name rows) ≡ true)
    parts r =
        (r.0, λ c. refused_missing excluded_names allow_container rows name (ground (arith, r, c)))
