-- ===== src/State/Plan.antt =====
-- The parts of a plan for one set, one dict and one setting: carried out, each reaches what is
-- wanted, and where nothing differs each is empty.
use auto_xdp.Base.{
  ==_iff, Bool, Bool-cases, Dict, IsDict, Key, List, Option, String, [], arith, bool_key, contains,
  contains-difference, contains-keys, contains-union, contains_self, difference, eqb_refl,
  erase_all, false, filter, filter_items, filter_items-IsDict, if◌then◌else◌, inl, inr, is_some,
  keys, list_key, lookup, lookup-erase_all, lookup-filter_items, lookup-update, nat_key, none,
  option_eq_iff, option_key, pair_key, refl, set_eq, set_eq-contains, some, string_key,
  subset_complete, true, union, update, ℕ, ◌∷◌, ◌≡◌,
}
use auto_xdp.State.{
  AclRules, acl_upserts, dict_removals, dict_upserts, differs, flag_update, rate_update,
  set_differs,
}

-- What is left of a set after some elements come and others go.
abbrev pub change_set {ℓ} : {K : Type ℓ} ⦃k : Key K⦄ → List K → List K → List K → List K
change_set gain loss s = difference (union gain s) loss

module _ {ℓ} {K : Type ℓ} ⦃k : Key K⦄ where
  pub contains-change_set :
      (x : K) (wanted s : List K)
      → contains x (change_set (difference wanted s) (difference s wanted) s) ≡ contains x wanted
  contains-change_set x wanted s = ground (
    arith,
    contains-difference x (union (difference wanted s) s) (difference s wanted),
    contains-union x (difference wanted s) s,
    contains-difference x wanted s,
    contains-difference x s wanted,
  )

  pub difference_nil :
      (a b : List K) → ((x : K) → contains x a ≡ true → contains x b ≡ true) → difference a b ≡ []
  unfolding difference filter contains
  difference_nil [] b h = refl
  difference_nil (x ∷ a) b h =
      let here = h x (contains_self x a) in
      let there = difference_nil a b (λ y m. h y (ground arith)) in ground arith

module _ {ℓ κ} {K : Type ℓ} {V : Type κ} ⦃k : Key K⦄ where
  pub filter_items_nil :
      (p : K → V → Bool) (d : Dict K V)
      → IsDict d
      → ((i : K) (v : V) → lookup i d ≡ some v → p i v ≡ false)
      → filter_items p d ≡ []
  unfolding filter_items lookup
  filter_items_nil p [] u h = refl
  filter_items_nil p ((j, v) ∷ d) u h =
      let here = h j v (ground (arith, eqb_refl j)) in
      let there = filter_items_nil p d u.1 (λ i w e. h i w (ground (arith, ==_iff j i))) in
      ground arith

abbrev pub change_dict : Dict ℕ ℕ → List ℕ → Dict ℕ ℕ → Dict ℕ ℕ
change_dict upserts removals d = erase_all removals (update upserts d)

pub lookup-change_dict :
    (i : ℕ) (wanted d : Dict ℕ ℕ)
    → IsDict wanted
    → lookup i (change_dict (dict_upserts wanted d) (dict_removals wanted d) d) ≡ lookup i wanted
unfolding dict_upserts dict_removals
lookup-change_dict i wanted d u = ground (
  arith,
  lookup-erase_all i (dict_removals wanted d) (update (dict_upserts wanted d) d),
  lookup-update i (dict_upserts wanted d) d (filter_items-IsDict (differs d) wanted u),
  lookup-filter_items (differs d) i wanted u,
  contains-difference i (keys d) (keys wanted),
  contains-keys i d,
  contains-keys i wanted,
  option_eq_iff (lookup i d) (lookup i wanted),
)

pub dict_upserts_nil :
    (wanted d : Dict ℕ ℕ)
    → IsDict wanted
    → ((i : ℕ) → lookup i d ≡ lookup i wanted)
    → dict_upserts wanted d ≡ []
unfolding dict_upserts
dict_upserts_nil wanted d u h =
    filter_items_nil (differs d) wanted u
      (λ i v e. ground (arith, h i, option_eq_iff (lookup i d) (some v)))

pub dict_removals_nil :
    (wanted d : Dict ℕ ℕ) → ((i : ℕ) → lookup i d ≡ lookup i wanted) → dict_removals wanted d ≡ []
unfolding dict_removals
dict_removals_nil wanted d h =
    difference_nil (keys d) (keys wanted)
      (λ i m. ground (arith, h i, contains-keys i d, contains-keys i wanted))

-- Two optional sets of ports with the same members.
abbrev pub SamePorts : Option (List ℕ) → Option (List ℕ) → Type 0
SamePorts none none = Unit {0}
SamePorts none (some q) = ⊥
SamePorts (some p) none = ⊥
SamePorts (some p) (some q) = (x : ℕ) → contains x p ≡ contains x q

abbrev pub change_acl : AclRules → List (String × String) → AclRules → AclRules
change_acl upserts removals d = erase_all removals (update upserts d)

-- what the new rules make of one entry, by the old entry and the wanted one
acl_entry : Option (List ℕ) → Option (List ℕ) → Option (List ℕ)
acl_entry old none = none
acl_entry old (some ports) = if set_differs old ports then some ports else old

acl_entry_same : (old wanted : Option (List ℕ)) → SamePorts (acl_entry old wanted) wanted
unfolding acl_entry
acl_entry_same old none = tt
acl_entry_same none (some ports) = λ x. refl
acl_entry_same (some p) (some ports) = elim (Bool-cases (set_eq p ports)) [
  | inl same ↦ rw same (λ x. set_eq-contains x p ports same)
  | inr other ↦ rw other (λ x. refl)
]

lookup-change_acl :
    (i : String × String) (wanted d : AclRules)
    → IsDict wanted
    → lookup i (change_acl (acl_upserts wanted d) (difference (keys d) (keys wanted)) d)
      ≡ acl_entry (lookup i d) (lookup i wanted)
unfolding acl_upserts acl_entry
lookup-change_acl i wanted d u = ground (
  arith,
  lookup-erase_all i (difference (keys d) (keys wanted)) (update (acl_upserts wanted d) d),
  lookup-update i (acl_upserts wanted d) d
      (filter_items-IsDict (λ key ports. set_differs (lookup key d) ports) wanted u),
  lookup-filter_items (λ key ports. set_differs (lookup key d) ports) i wanted u,
  contains-difference i (keys d) (keys wanted),
  contains-keys i d,
  contains-keys i wanted,
)

pub change_acl-SamePorts :
    (i : String × String) (wanted d : AclRules)
    → IsDict wanted
    → SamePorts
        (lookup i (change_acl (acl_upserts wanted d) (difference (keys d) (keys wanted)) d))
        (lookup i wanted)
change_acl-SamePorts i wanted d u =
    rw (lookup-change_acl i wanted d u) (acl_entry_same (lookup i d) (lookup i wanted))

set_differs_same :
    (old : Option (List ℕ)) (ports : List ℕ)
    → SamePorts old (some ports)
    → set_differs old ports ≡ false
unfolding set_eq
set_differs_same none ports h = absurd h
set_differs_same (some p) ports h =
    let there = subset_complete p ports (λ x m. ground (arith, h x)) in
    let back = subset_complete ports p (λ x m. ground (arith, h x)) in ground arith

is_some_same : (p q : Option (List ℕ)) → SamePorts p q → is_some p ≡ is_some q
is_some_same none none h = refl
is_some_same none (some q) h = absurd h
is_some_same (some p) none h = absurd h
is_some_same (some p) (some q) h = refl

pub acl_upserts_nil :
    (wanted d : AclRules)
    → IsDict wanted
    → ((i : String × String) → SamePorts (lookup i d) (lookup i wanted))
    → acl_upserts wanted d ≡ []
unfolding acl_upserts
acl_upserts_nil wanted d u h =
    filter_items_nil (λ key ports. set_differs (lookup key d) ports) wanted u
      (λ i ports e. set_differs_same (lookup i d) ports (rw e at (h i)))

pub acl_removals_nil :
    (wanted d : AclRules)
    → ((i : String × String) → SamePorts (lookup i d) (lookup i wanted))
    → difference (keys d) (keys wanted) ≡ []
acl_removals_nil wanted d h = difference_nil (keys d) (keys wanted) (λ i m. ground (
  arith,
  is_some_same (lookup i d) (lookup i wanted) (h i),
  contains-keys i d,
  contains-keys i wanted,
))

-- What a setting becomes when its update, if there is one, is written.
abbrev pub written {ℓ} : {A : Type ℓ} → Option A → Option A → Option A
written none current = current
written (some v) current = some v

pub written-flag_update :
    (current : Option Bool) (wanted : Bool)
    → written (flag_update current wanted) current ≡ some wanted
unfolding flag_update
written-flag_update none wanted = refl
written-flag_update (some current) wanted = ground (arith, ==_iff current wanted)

pub written-rate_update :
    (current : Option ℕ) (wanted : ℕ) → written (rate_update current wanted) current ≡ some wanted
unfolding rate_update
written-rate_update none wanted = refl
written-rate_update (some current) wanted = ground arith

pub flag_update-none : (wanted : Bool) → flag_update (some wanted) wanted ≡ none
unfolding flag_update
flag_update-none wanted = ground (arith, eqb_refl wanted)

pub rate_update-none : (wanted : ℕ) → rate_update (some wanted) wanted ≡ none
unfolding rate_update
rate_update-none wanted = ground arith
