-- ===== src/Base/Dicts.antt =====
-- Python's `dict` as the list of its entries in insertion order. `IsDict` says that no key is
-- listed twice, which every operation keeps.
use auto_xdp.Base.Sets.{contains, filter}
use auto_xdp.Base.Tests.{
  ◌≡◌, refl, subst, Bool, true, false, not, Option, none, some, List, [], ◌∷◌, arith, if◌then◌else◌,
  Key, ◌==◌,
}

abbrev pub Dict {ℓ κ} : Type ℓ → Type κ → Type (ℓ ⊔ κ)
Dict K V = List (K × V)

abbrev pub is_some {ℓ} : {A : Type ℓ} → Option A → Bool
is_some none = false
is_some (some a) = true

-- `x or y` on options, the first that is there
abbrev pub or_else {ℓ} : {A : Type ℓ} → Option A → Option A → Option A
or_else none y = y
or_else (some x) y = some x

abbrev pub get_or {ℓ} : {A : Type ℓ} → Option A → A → A
get_or none x = x
get_or (some a) x = a

module _ {ℓ κ} {K : Type ℓ} {V : Type κ} ⦃k : Key K⦄ where
  -- `d.get(j)`
  unfoldable pub lookup : K → Dict K V → Option V
  lookup j [] = none
  lookup j ((i, v) ∷ d) = if i == j then some v else lookup j d

  -- `d[j] = v`
  unfoldable pub insert : K → V → Dict K V → Dict K V
  insert j v [] = (j, v) ∷ []
  insert j v ((i, w) ∷ d) = if i == j then (i, v) ∷ d else (i, w) ∷ insert j v d

  -- `d.pop(j, None)`
  unfoldable pub erase : K → Dict K V → Dict K V
  erase j d = filter (λ e. not (e.0 == j)) d

  -- `set(d)`
  unfoldable pub keys : Dict K V → List K
  keys [] = []
  keys ((j, v) ∷ d) = j ∷ keys d

  abbrev pub IsDict : Dict K V → Type κ
  IsDict [] = Unit
  IsDict ((j, v) ∷ d) = (lookup j d ≡ none) × IsDict d

  -- `{j: v for j, v in d.items() if p(j, v)}`
  unfoldable pub filter_items : (K → V → Bool) → Dict K V → Dict K V
  filter_items p [] = []
  filter_items p ((j, v) ∷ d) = let rest = filter_items p d in if p j v then (j, v) ∷ rest else rest

  -- `{j: f(j) for j in s}`
  unfoldable pub dict_for : (K → V) → List K → Dict K V
  dict_for f [] = []
  dict_for f (j ∷ s) = insert j (f j) (dict_for f s)

  pub lookup-insert :
      (i j : K) (v : V) (d : Dict K V)
      → lookup i (insert j v d) ≡ (if j == i then some v else lookup i d)
  unfolding lookup insert
  lookup-insert i j v [] = refl
  lookup-insert i j v ((h, w) ∷ d) =
      ground (arith, k.eqb_iff h j, k.eqb_iff h i, k.eqb_iff j i, lookup-insert i j v d)

  pub lookup-erase :
      (i j : K) (d : Dict K V) → lookup i (erase j d) ≡ (if i == j then none else lookup i d)
  unfolding lookup erase filter
  lookup-erase i j [] = ground arith
  lookup-erase i j ((h, w) ∷ d) =
      ground (arith, k.eqb_iff h j, k.eqb_iff h i, k.eqb_iff i j, lookup-erase i j d)

  pub contains-keys : (i : K) (d : Dict K V) → contains i (keys d) ≡ is_some (lookup i d)
  unfolding lookup keys contains
  contains-keys i [] = refl
  contains-keys i ((h, w) ∷ d) = ground (arith, contains-keys i d)

  pub insert-IsDict : (j : K) (v : V) (d : Dict K V) → IsDict d → IsDict (insert j v d)
  unfolding lookup insert
  insert-IsDict j v [] h = (refl, tt)
  insert-IsDict j v ((i, w) ∷ d) h =
      ground (arith, k.eqb_iff i j, k.eqb_iff j i, lookup-insert i j v d, insert-IsDict j v d h.1)

  lookup-filter_items-none :
      (p : K → V → Bool) (i : K) (d : Dict K V)
      → lookup i d ≡ none
      → lookup i (filter_items p d) ≡ none
  unfolding lookup filter_items
  lookup-filter_items-none p i [] h = refl
  lookup-filter_items-none p i ((j, w) ∷ d) h = ground (arith, lookup-filter_items-none p i d)

  pub filter_items-IsDict : (p : K → V → Bool) (d : Dict K V) → IsDict d → IsDict (filter_items p d)
  unfolding filter_items
  filter_items-IsDict p [] h = tt
  filter_items-IsDict p ((j, w) ∷ d) h =
      ground (arith, lookup-filter_items-none p j d, filter_items-IsDict p d h.1)

  pub erase-IsDict : (j : K) (d : Dict K V) → IsDict d → IsDict (erase j d)
  unfolding erase filter
  erase-IsDict j [] h = tt
  erase-IsDict j ((i, w) ∷ d) h =
      ground (arith, k.eqb_iff i j, lookup-erase i j d, erase-IsDict j d h.1)

  -- the test of an entry that may be missing
  abbrev pub keeps : (K → V → Bool) → K → Option V → Option V
  keeps p i none = none
  keeps p i (some v) = if p i v then some v else none

  pub lookup-filter_items :
      (p : K → V → Bool) (i : K) (d : Dict K V)
      → IsDict d
      → lookup i (filter_items p d) ≡ keeps p i (lookup i d)
  unfolding lookup filter_items
  lookup-filter_items p i [] h = refl
  lookup-filter_items p i ((j, w) ∷ d) h =
      ground (arith, k.eqb_iff j i, lookup-filter_items p i d h.1, lookup-filter_items-none p i d)

  pub lookup-dict_for :
      (f : K → V) (i : K) (s : List K)
      → lookup i (dict_for f s) ≡ (if contains i s then some (f i) else none)
  unfolding lookup dict_for contains
  lookup-dict_for f i [] = refl
  lookup-dict_for f i (j ∷ s) =
      ground (arith, k.eqb_iff j i, lookup-insert i j (f j) (dict_for f s), lookup-dict_for f i s)

  pub dict_for-IsDict : (f : K → V) (s : List K) → IsDict (dict_for f s)
  unfolding dict_for
  dict_for-IsDict f [] = tt
  dict_for-IsDict f (j ∷ s) = insert-IsDict j (f j) (dict_for f s) (dict_for-IsDict f s)

-- Many writes at once.
module _ {ℓ κ} {K : Type ℓ} {V : Type κ} ⦃k : Key K⦄ where
  -- `d.update(e)`
  unfoldable pub update : Dict K V → Dict K V → Dict K V
  update [] d = d
  update ((j, v) ∷ e) d = update e (insert j v d)

  -- `for j in s: d.pop(j, None)`
  unfoldable pub erase_all : List K → Dict K V → Dict K V
  erase_all [] d = d
  erase_all (j ∷ s) d = erase_all s (erase j d)

  pub lookup-update :
      (i : K) (e d : Dict K V)
      → IsDict e
      → lookup i (update e d) ≡ or_else (lookup i e) (lookup i d)
  unfolding lookup update
  lookup-update i [] d h = refl
  lookup-update i ((j, v) ∷ e) d h =
      ground (arith, k.eqb_iff j i, lookup-insert i j v d, lookup-update i e (insert j v d) h.1)

  pub lookup-erase_all :
      (i : K) (s : List K) (d : Dict K V)
      → lookup i (erase_all s d) ≡ (if contains i s then none else lookup i d)
  unfolding erase_all contains
  lookup-erase_all i [] d = refl
  lookup-erase_all i (j ∷ s) d =
      ground
        (arith, k.eqb_iff j i, k.eqb_iff i j, lookup-erase i j d, lookup-erase_all i s (erase j d))

infixl 1 ◌>>=◌
-- one step after another, up to the first that has no result
abbrev pub ◌>>=◌ {ℓ κ} : {A : Type ℓ} {B : Type κ} → Option A → (A → Option B) → Option B
none >>= f = none
some a >>= f = f a

module _ {ℓ κ} {A : Type ℓ} (P : A → Type κ) where
  -- what holds of the result, if there is one
  abbrev pub Holds : Option A → Type κ
  Holds none = Unit
  Holds (some a) = P a

  pub Holds-at : (o : Option A) (a : A) → o ≡ some a → Holds o → P a
  Holds-at o a e h = subst Holds e h

pub bind-Holds {ℓ κ ℓ₁ κ₁} :
    {A : Type ℓ} {B : Type κ} (Q : A → Type ℓ₁) (P : B → Type κ₁) (o : Option A) (f : A → Option B)
    → Holds Q o
    → ((a : A) → Q a → Holds P (f a))
    → Holds P (o >>= f)
bind-Holds Q P none f q step = tt
bind-Holds Q P (some a) f q step = step a q

pub all-Holds {ℓ κ κ₁} :
    {A : Type ℓ} {B : Type κ} (P : B → Type κ₁) (o : Option A) (f : A → Option B)
    → ((a : A) → Holds P (f a))
    → Holds P (o >>= f)
all-Holds P none f step = tt
all-Holds P (some a) f step = step a

-- a result that is there is the one that a default stands in for
pub some-get_or {ℓ} : {A : Type ℓ} (o : Option A) (a : A) → is_some o ≡ true → o ≡ some (get_or o a)
some-get_or none a h = absurd (cc)
some-get_or (some b) a h = refl
