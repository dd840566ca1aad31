-- ===== src/Base/Sorting.antt =====
-- `sorted`: the order of texts, and what sorting keeps.
use Prim.Native.Nat.{Ordering, compare as compare_ℕ}
use Prim.Native.Char.{Char, code}
use Prim.Native.String.compare
use Prim.Native.String.{String, compare as compare_texts, then as and_then}
use auto_xdp.Base.Tests.{
  ◌≡◌, refl, ap, ◌∙◌, Bool, Bool-cases, true, false, ◌&&◌, ◌||◌, none, List, [], ◌∷◌, arith,
  if◌then◌else◌, ltb, nat_eq, inl, inr, Key,
}
use auto_xdp.Base.Sets.{filter}
use auto_xdp.Base.Dicts.{Dict, IsDict, lookup}
use auto_xdp.Base.Order.{place, sort, text_leb}

abbrev order_leb : Ordering → Bool
order_leb o = elim o [ Ordering.gt ↦ false | _ ↦ true ]

first_decides :
    (o p : Ordering)
    → (elim (and_then o p) [ Ordering.gt ↦ false | _ ↦ true ]) ≡ (
        (elim o [ Ordering.lt ↦ true | _ ↦ false ])
        || ((elim o [ Ordering.eq ↦ true | _ ↦ false ])
            && (elim p [ Ordering.gt ↦ false | _ ↦ true ])))
first_decides Ordering.lt p = refl
first_decides Ordering.eq p = refl
first_decides Ordering.gt p = refl

text_leb-cons :
    (c d : Char) (s t : String)
    → text_leb (String.◌∷◌ c s) (String.◌∷◌ d t)
      ≡ (ltb (code c) (code d) || (nat_eq (code c) (code d) && text_leb s t))
unfolding text_leb
text_leb-cons c d s t =
    ap order_leb (compare.cons-cons c d s t)
    ∙ first_decides (compare_ℕ (code c) (code d)) (compare_texts s t)

text_leb-nil : (t : String) → text_leb String.[] t ≡ true
unfolding text_leb
text_leb-nil String.[] = ap order_leb compare.nil-nil
text_leb-nil (String.◌∷◌ d t) = ap order_leb (compare.nil-cons d t)

cons-text_leb : (c : Char) (s : String) → text_leb (String.◌∷◌ c s) String.[] ≡ false
unfolding text_leb
cons-text_leb c s = ap order_leb (compare.cons-nil c s)

pub text_leb_trans :
    (a b c : String) → text_leb a b ≡ true → text_leb b c ≡ true → text_leb a c ≡ true
text_leb_trans String.[] b c h k = text_leb-nil c
text_leb_trans (String.◌∷◌ x a) String.[] c h k = absurd (ground (arith, h, cons-text_leb x a))
text_leb_trans (String.◌∷◌ x a) (String.◌∷◌ y b) String.[] h k =
    absurd (ground (arith, k, cons-text_leb y b))
text_leb_trans (String.◌∷◌ x a) (String.◌∷◌ y b) (String.◌∷◌ z c) h k = ground (
  arith,
  h,
  k,
  text_leb-cons x y a b,
  text_leb-cons y z b c,
  text_leb-cons x z a c,
  text_leb_trans a b c,
)

pub text_leb_total : (a b : String) → text_leb a b ≡ false → text_leb b a ≡ true
text_leb_total String.[] b h = absurd (ground (arith, h, text_leb-nil b))
text_leb_total (String.◌∷◌ x a) String.[] h = text_leb-nil (String.◌∷◌ x a)
text_leb_total (String.◌∷◌ x a) (String.◌∷◌ y b) h =
    ground (arith, h, text_leb-cons x y a b, text_leb-cons y x b a, text_leb_total a b)

-- a list in order: the first element is before all others
module _ {ℓ} {A : Type ℓ} (before : A → A → Bool) where
  abbrev pub IsFirst : A → List A → Type 0
  IsFirst x [] = Unit
  IsFirst x (y ∷ s) = (before x y ≡ true) × IsFirst x s

  abbrev pub IsSorted : List A → Type 0
  IsSorted [] = Unit
  IsSorted (x ∷ s) = IsFirst x s × IsSorted s

  module _ (before_trans : (a b c : A) → before a b ≡ true → before b c ≡ true → before a c ≡ true)
      (before_total : (a b : A) → before a b ≡ false → before b a ≡ true) where
    IsFirst-IsFirst : (x y : A) (s : List A) → before x y ≡ true → IsFirst y s → IsFirst x s
    IsFirst-IsFirst x y [] h k = tt
    IsFirst-IsFirst x y (z ∷ s) h (k, m) = (before_trans x y z h k, IsFirst-IsFirst x y s h m)

    IsFirst-place :
        (x y : A) (s : List A) → before y x ≡ true → IsFirst y s → IsFirst y (place before x s)
    unfolding place
    IsFirst-place x y [] h k = (h, tt)
    IsFirst-place x y (z ∷ s) h (k, m) = ground (arith, h, k, m, IsFirst-place x y s h m)

    place-IsSorted : (x : A) (s : List A) → IsSorted s → IsSorted (place before x s)
    unfolding place
    place-IsSorted x [] k = (tt, tt)
    place-IsSorted x (y ∷ s) (k, m) = elim (Bool-cases (before x y)) [
      | inl first ↦ rw first ((first, IsFirst-IsFirst x y s first k), (k, m))
      | inr later ↦ rw later (IsFirst-place x y s (before_total x y later) k, place-IsSorted x s m)
    ]

    sort-IsSorted : (s : List A) → IsSorted (sort before s)
    unfolding sort
    sort-IsSorted [] = tt
    sort-IsSorted (x ∷ s) = place-IsSorted x (sort before s) (sort-IsSorted s)

    place-first : (x : A) (s : List A) → IsFirst x s → place before x s ≡ x ∷ s
    unfolding place
    place-first x [] h = refl
    place-first x (y ∷ s) (h, k) = rw h refl

    IsFirst-filter : (p : A → Bool) (x : A) (s : List A) → IsFirst x s → IsFirst x (filter p s)
    unfolding filter
    IsFirst-filter p x [] h = tt
    IsFirst-filter p x (y ∷ s) (h, k) = ground (arith, h, IsFirst-filter p x s k)

    filter-place :
        (p : A → Bool) (x : A) (s : List A)
        → IsSorted s
        → filter p (place before x s) ≡ (if p x then place before x (filter p s) else filter p s)
    unfolding filter place
    filter-place p x [] k = refl
    filter-place p x (y ∷ s) (k, m) = elim (Bool-cases (before x y)) [
      | inl first ↦ ground (
        arith,
        first,
        place-first x (filter p (y ∷ s))
            (IsFirst-filter p x (y ∷ s) (first, IsFirst-IsFirst x y s first k)),
      )
      | inr later ↦ ground (arith, later, filter-place p x s m)
    ]

    -- what a loop over a sorted set keeps, in its order
    pub sort-filter :
        (p : A → Bool) (s : List A) → sort before (filter p s) ≡ filter p (sort before s)
    unfolding sort filter
    sort-filter p [] = refl
    sort-filter p (x ∷ s) =
        ground (arith, sort-filter p s, filter-place p x (sort before s) (sort-IsSorted s))

module _ {κ} {K : Type 0} {V : Type κ} ⦃k : Key K⦄ (before : K × V → K × V → Bool) where
  lookup-place :
      (i : K) (e : K × V) (d : Dict K V)
      → lookup e.0 d ≡ none
      → lookup i (place before e d) ≡ lookup i (e ∷ d)
  unfolding lookup place
  lookup-place i e [] h = refl
  lookup-place i e ((j, v) ∷ d) h =
      ground (arith, h, k.eqb_iff j e.0, k.eqb_iff e.0 i, k.eqb_iff j i, lookup-place i e d)

  -- a dict with its entries in another order answers the same
  pub lookup-sort : (i : K) (d : Dict K V) → IsDict d → lookup i (sort before d) ≡ lookup i d
  unfolding lookup sort
  lookup-sort i [] h = refl
  lookup-sort i ((j, v) ∷ d) (h, m) =
      ground
        (arith, lookup-place i (j, v) (sort before d) (lookup-sort j d m ∙ h), lookup-sort i d m)

-- `any(p(x) for x in s)`
unfoldable pub any {ℓ} : {A : Type ℓ} → (A → Bool) → List A → Bool
any p [] = false
any p (x ∷ s) = p x || any p s

module _ {ℓ} {A : Type ℓ} (before : A → A → Bool) where
  any-place : (p : A → Bool) (x : A) (s : List A) → any p (place before x s) ≡ (p x || any p s)
  unfolding any place
  any-place p x [] = refl
  any-place p x (y ∷ s) = ground (arith, any-place p x s)

  pub any-sort : (p : A → Bool) (s : List A) → any p (sort before s) ≡ any p s
  unfolding any sort
  any-sort p [] = refl
  any-sort p (x ∷ s) = ground (arith, any-sort p s, any-place p x (sort before s))
