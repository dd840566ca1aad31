-- ===== src/Backend/Stale.antt =====
-- The rounds for which a tracked flow was missed, in `XdpBackend.build_reconcile_plan` of
-- auto_xdp/backends/xdp.py.
use auto_xdp.Base.{
  ==_iff, Dict, List, [], arith, bool_key, contains, contains-add, contains-difference,
  contains-keys, difference, erase_all, false, filter, get_or, if◌then◌else◌, insert, keys, leb,
  list_key, lookup, lookup-erase_all, lookup-insert, nat_key, none, not, option_key, pair_key, refl,
  some, string_key, ℕ, ◌&&◌, ◌+◌, ◌∷◌, ◌≡◌,
}
use auto_xdp.Backend.{Backend, Kernels, build_reconcile_plan, count_misses}
use auto_xdp.Config.{Config, Float}
use auto_xdp.State.{AppliedState, Bytes, DesiredState, compute_reconcile_plan}

-- no element is listed twice
abbrev pub NoRepeat : List Bytes → Type 0
NoRepeat [] = Unit
NoRepeat (x ∷ s) = (contains x s ≡ false) × NoRepeat s

difference-NoRepeat : (a b : List Bytes) → NoRepeat a → NoRepeat (difference a b)
unfolding difference filter
difference-NoRepeat [] b h = tt
difference-NoRepeat (x ∷ a) b h =
    ground (arith, contains-difference x a b, difference-NoRepeat a b h.1)

-- every flow of the list is counted once more, and the others are left
lookup-count_misses :
    (limit : ℕ) (flows : List Bytes) (counts : Dict Bytes ℕ) (key : Bytes)
    → NoRepeat flows
    → lookup key (count_misses limit flows counts).1
      ≡ (if contains key flows then some (get_or (lookup key counts) 0 + 1) else lookup key counts)
unfolding count_misses contains
lookup-count_misses limit [] counts key h = refl
lookup-count_misses limit (x ∷ flows) counts key h = ground (
  arith,
  ==_iff x key,
  lookup-insert key x (get_or (lookup x counts) 0 + 1) counts,
  lookup-count_misses limit flows (insert x (get_or (lookup x counts) 0 + 1) counts) key h.1,
)

contains-count_misses :
    (limit : ℕ) (flows : List Bytes) (counts : Dict Bytes ℕ) (key : Bytes)
    → NoRepeat flows
    → contains key (count_misses limit flows counts).0
      ≡ (contains key flows && leb limit (get_or (lookup key counts) 0 + 1))
unfolding count_misses contains
contains-count_misses limit [] counts key h = refl
contains-count_misses limit (x ∷ flows) counts key h = ground (
  arith,
  ==_iff x key,
  lookup-insert key x (get_or (lookup x counts) 0 + 1) counts,
  contains-add key x
      (count_misses limit flows (insert x (get_or (lookup x counts) 0 + 1) counts)).0,
  contains-count_misses limit flows (insert x (get_or (lookup x counts) 0 + 1) counts) key h.1,
)

module _ (k : Kernels) {F : Float} (cfg : Config F) where
  -- A flow is missed in a round when it is tracked and was not observed. It is planned for removal
  -- exactly when it is missed and this is at least the configured number of rounds in a row; its
  -- count goes up by one, and the count of every other flow is forgotten.
  pub removed_after_misses :
      (desired : DesiredState) (applied : AppliedState) (b : Backend k) (key : Bytes)
      → NoRepeat applied.conntrack_entries
      → let (plan, b') = build_reconcile_plan k cfg desired applied b in
        let missed =
          contains key applied.conntrack_entries && not (contains key desired.conntrack_entries) in
        let rounds = get_or (lookup key b.conntrack_stale_rounds) 0 + 1 in
        (contains key plan.conntrack_entries_to_remove
          ≡ (missed && leb cfg.xdp_conntrack_stale_reconciles rounds))
        × (lookup key b'.conntrack_stale_rounds ≡ (if missed then some rounds else none))
  unfolding build_reconcile_plan compute_reconcile_plan
  removed_after_misses desired applied b key h =
      let gone = difference applied.conntrack_entries desired.conntrack_entries in
      let counts = erase_all desired.conntrack_entries b.conntrack_stale_rounds in
      let limit = cfg.xdp_conntrack_stale_reconciles in
      let once = difference-NoRepeat applied.conntrack_entries desired.conntrack_entries h in
      let counted = (count_misses limit gone counts).1 in
      let in_gone = contains-difference key applied.conntrack_entries desired.conntrack_entries in
      let before = lookup-erase_all key desired.conntrack_entries b.conntrack_stale_rounds in
      (
        ground (arith, in_gone, before, contains-count_misses limit gone counts key once),
        ground (
          arith,
          in_gone,
          before,
          lookup-count_misses limit gone counts key once,
          lookup-erase_all key (difference (keys counted) gone) counted,
          contains-difference key (keys counted) gone,
          contains-keys key counted,
        ),
      )
