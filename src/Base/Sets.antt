-- ===== src/Base/Sets.antt =====
-- Python's `set` as a list of its elements. Only membership is observed, through `contains`.
use auto_xdp.Base.Tests.{
  ℕ, suc, list_key, ◌≡◌, refl, Bool, true, false, not, ◌&&◌, ◌||◌, List, [], ◌∷◌, arith,
  if◌then◌else◌, Key, ◌==◌, eqb_refl, Bool-cases, inl, inr,
}

module _ {ℓ} {K : Type ℓ} where
  -- `{x for x in s if p(x)}`; the library's `filter` wants a decision
  unfoldable pub filter : (K → Bool) → List K → List K
  filter p [] = []
  filter p (x ∷ s) = let rest = filter p s in if p x then x ∷ rest else rest

module _ {ℓ} {K : Type ℓ} ⦃k : Key K⦄ where
  -- `x in s`
  unfoldable pub contains : K → List K → Bool
  contains x [] = false
  contains x (y ∷ s) = y == x || contains x s

  -- `s.add(x)`
  unfoldable pub add : K → List K → List K
  add x s = if contains x s then s else x ∷ s

  -- `s.discard(x)`
  unfoldable pub discard : K → List K → List K
  discard x s = filter (λ y. not (y == x)) s

  -- `a | b`
  unfoldable pub union : List K → List K → List K
  union [] b = b
  union (x ∷ a) b = add x (union a b)

  -- `a - b`
  unfoldable pub difference : List K → List K → List K
  difference a b = filter (λ x. not (contains x b)) a

  -- `a <= b`, and `a == b` between sets
  unfoldable pub subset : List K → List K → Bool
  subset [] b = true
  subset (x ∷ a) b = contains x b && subset a b

  unfoldable pub set_eq : List K → List K → Bool
  set_eq a b = subset a b && subset b a

  pub contains-filter :
      (x : K) (p : K → Bool) (s : List K) → contains x (filter p s) ≡ (contains x s && p x)
  unfolding contains filter
  contains-filter x p [] = refl
  contains-filter x p (y ∷ s) = ground (arith, k.eqb_iff y x, contains-filter x p s)

  pub contains-add : (x y : K) (s : List K) → contains x (add y s) ≡ (y == x || contains x s)
  unfolding contains add
  contains-add x y s = ground (arith, k.eqb_iff y x)

  pub contains-discard :
      (x y : K) (s : List K) → contains x (discard y s) ≡ (contains x s && not (x == y))
  unfolding discard
  contains-discard x y s = contains-filter x (λ z. not (z == y)) s

  pub contains-union :
      (x : K) (a b : List K) → contains x (union a b) ≡ (contains x a || contains x b)
  unfolding contains union
  contains-union x [] b = refl
  contains-union x (y ∷ a) b = ground (arith, contains-add x y (union a b), contains-union x a b)

  pub contains-difference :
      (x : K) (a b : List K) → contains x (difference a b) ≡ (contains x a && not (contains x b))
  unfolding difference
  contains-difference x a b = contains-filter x (λ y. not (contains y b)) a

  pub contains_self : (x : K) (s : List K) → contains x (x ∷ s) ≡ true
  unfolding contains
  contains_self x s = ground (arith, eqb_refl x)

  pub contains_nil : (x : K) (s : List K) → (s == []) ≡ true → contains x s ≡ false
  unfolding contains
  contains_nil x [] h = refl
  contains_nil x (y ∷ s) h = absurd (cc)

  -- `subset` decides inclusion, one element at a time
  pub subset_sound :
      (x : K) (a b : List K) → subset a b ≡ true → contains x a ≡ true → contains x b ≡ true
  unfolding subset contains
  subset_sound x [] b h m = ground arith
  subset_sound x (y ∷ a) b h m = ground (arith, k.eqb_iff y x, subset_sound x a b)

  pub subset_complete :
      (a b : List K) → ((x : K) → contains x a ≡ true → contains x b ≡ true) → subset a b ≡ true
  unfolding subset contains
  subset_complete [] b h = refl
  subset_complete (y ∷ a) b h =
      let here = h y (contains_self y a) in
      let there = subset_complete a b (λ x m. h x (ground arith)) in ground arith

  pub set_eq-contains : (x : K) (a b : List K) → set_eq a b ≡ true → contains x a ≡ contains x b
  unfolding set_eq
  set_eq-contains x a b h = elim (Bool-cases (contains x a)) [
    | inl m ↦ ground (arith, subset_sound x a b, subset_sound x b a)
    | inr m ↦ ground (arith, subset_sound x a b, subset_sound x b a)
  ]

module _ {ℓ} {A : Type ℓ} where
  -- `len(s)`
  abbrev pub length : List A → ℕ
  length [] = 0
  length (x ∷ s) = suc (length s)
