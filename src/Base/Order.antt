-- ===== src/Base/Order.antt =====
-- Python's `sorted` on a set: insertion sort by a Boolean order.
use Prim.Native.Nat.{Ordering}
use Prim.Native.String.{String, compare as compare_texts}
use auto_xdp.Base.Tests.{
  ◌≡◌, Bool, true, false, ◌||◌, List, [], ◌∷◌, arith, if◌then◌else◌, Key, ◌==◌,
}
use auto_xdp.Base.Sets.{contains}

module _ {ℓ} {A : Type ℓ} (before : A → A → Bool) where
  unfoldable pub place : A → List A → List A
  place x [] = x ∷ []
  place x (y ∷ s) = let rest = place x s in if before x y then x ∷ y ∷ s else y ∷ rest

  unfoldable pub sort : List A → List A
  sort [] = []
  sort (x ∷ s) = place x (sort s)

unfoldable pub text_leb : String → String → Bool
text_leb a b = elim (compare_texts a b) [ Ordering.gt ↦ false | _ ↦ true ]

module _ {ℓ} {K : Type ℓ} ⦃k : Key K⦄ (before : K → K → Bool) where
  contains-place : (x y : K) (s : List K) → contains x (place before y s) ≡ (y == x || contains x s)
  unfolding place contains
  contains-place x y [] = ground arith
  contains-place x y (z ∷ s) = ground (arith, contains-place x y s)

  -- sorting keeps the elements
  pub contains-sort : (x : K) (s : List K) → contains x (sort before s) ≡ contains x s
  unfolding sort contains
  contains-sort x [] = ground arith
  contains-sort x (y ∷ s) = ground (arith, contains-place x y (sort before s), contains-sort x s)
