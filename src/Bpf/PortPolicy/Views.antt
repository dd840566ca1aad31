-- ===== src/Bpf/PortPolicy/Views.antt =====
-- What the views show after a write: the one limit changes and the others stay, unless the record
-- loses its first three limits.
use auto_xdp.Base.{
  ==_iff, Bool, Bool-cases, Dict, IsDict, Option, [], arith, bool_key, erase-IsDict, false, get_or,
  if◌then◌else◌, inl, inr, insert-IsDict, list_key, lookup, lookup-erase, lookup-insert, nat_key,
  none, not, option_key, pair_key, refl, some, string_key, subst, sym, true, ℕ, ◌&&◌, ◌<◌, ◌==◌,
  ◌∙◌, ◌∷◌, ◌≡◌, ◌≢◌, ◌⊎◌,
}
use auto_xdp.Bpf.Kernel.{KernelMap, Reply-cases, enoent, other_errno}
use auto_xdp.Bpf.PortPolicy.{
  Field, Fields, PortPolicyMap, active, agg_rate_field, blank, conn_field, conn_port_field,
  conn_prefix_field, delete, get_field, head_is_zero, rate_field, set_field, set_fields, store,
  view_items, view_set,
}

-- a limit as a view shows it: zero is not shown
abbrev pub shown : Field → Option Fields → Option ℕ
shown f none = none
shown f (some r) = if get_field f r == 0 then none else some (get_field f r)

lookup-view_items :
    (f : Field) (p : ℕ) (d : Dict ℕ Fields)
    → IsDict d
    → lookup p (view_items f d) ≡ shown f (lookup p d)
unfolding view_items lookup
lookup-view_items f p [] u = refl
lookup-view_items f p ((port, r) ∷ d) u = ground (arith, lookup-view_items f p d u.1)

get_field-set_field_self : (f : Field) (v : ℕ) (r : Fields) → get_field f (set_field f v r) ≡ v
unfolding get_field set_field
get_field-set_field_self rate_field v r = refl
get_field-set_field_self agg_rate_field v r = refl
get_field-set_field_self conn_field v r = refl
get_field-set_field_self conn_prefix_field v r = refl
get_field-set_field_self conn_port_field v r = refl

get_field-set_field_ne :
    (f g : Field) (v : ℕ) (r : Fields) → f ≢ g → get_field g (set_field f v r) ≡ get_field g r
unfolding get_field set_field
get_field-set_field_ne rate_field g v r h = ground arith
get_field-set_field_ne agg_rate_field g v r h = ground arith
get_field-set_field_ne conn_field g v r h = ground arith
get_field-set_field_ne conn_prefix_field g v r h = ground arith
get_field-set_field_ne conn_port_field g v r h = ground arith

module _ (kernel : KernelMap ℕ Fields) where
  lookup-store :
      (port : ℕ) (r : Fields) (dry_run : Bool) (m : PortPolicyMap kernel) (p : ℕ)
      → lookup p (store kernel port r dry_run m).1.cache ≡ (
          if (store kernel port r dry_run m).0 && not dry_run && port == p
          then (if head_is_zero r then none else some r)
          else lookup p m.cache)
  unfolding store delete set_fields
  lookup-store port r true m p = ground arith
  lookup-store port r false m p = elim (Bool-cases (head_is_zero r)) [
    | inl zeros ↦ elim (Reply-cases (kernel.delete_elem port m.kernel).0) [
      | inl (a, e) ↦ ground (arith, zeros, e, lookup-erase p port m.cache)
      | inr (enoent, e) ↦ ground (arith, zeros, e, lookup-erase p port m.cache)
      | inr (other_errno n, e) ↦ ground (arith, zeros, e)
    ]
    | inr some_limit ↦ elim (Reply-cases (kernel.update_elem port r m.kernel).0) [
      | inl (a, e) ↦ ground (arith, some_limit, e, lookup-insert p port r m.cache)
      | inr (err, e) ↦ ground (arith, some_limit, e)
    ]
  ]

  store-IsDict :
      (port : ℕ) (r : Fields) (dry_run : Bool) (m : PortPolicyMap kernel)
      → IsDict m.cache
      → IsDict (store kernel port r dry_run m).1.cache
  unfolding store delete set_fields
  store-IsDict port r dry_run m u =
      ground (arith, erase-IsDict port m.cache u, insert-IsDict port r m.cache u)

  -- the record of a port after a view wrote into it
  abbrev pub written_record : ℕ → ℕ → Field → ℕ → ℕ → PortPolicyMap kernel → Fields
  written_record prefix_v4 prefix_v6 f port v m =
      set_field f v (get_or (lookup port m.cache) (blank prefix_v4 prefix_v6))

  shown_written :
      (prefix_v4 prefix_v6 : ℕ) (f g : Field) (v : ℕ) (old : Option Fields)
      → f ≢ g
      → shown g (some (set_field f v (get_or old (blank prefix_v4 prefix_v6)))) ≡ shown g old
  unfolding get_field
  shown_written prefix_v4 prefix_v6 f g v (some r) h = rw (get_field-set_field_ne f g v r h)
  shown_written prefix_v4 prefix_v6 f rate_field v none h =
      rw (get_field-set_field_ne f rate_field v (blank prefix_v4 prefix_v6) h)
  shown_written prefix_v4 prefix_v6 f agg_rate_field v none h =
      rw (get_field-set_field_ne f agg_rate_field v (blank prefix_v4 prefix_v6) h)
  shown_written prefix_v4 prefix_v6 f conn_field v none h =
      rw (get_field-set_field_ne f conn_field v (blank prefix_v4 prefix_v6) h)
  shown_written prefix_v4 prefix_v6 f conn_prefix_field v none h =
      rw (get_field-set_field_ne f conn_prefix_field v (blank prefix_v4 prefix_v6) h)
  shown_written prefix_v4 prefix_v6 f conn_port_field v none h =
      rw (get_field-set_field_ne f conn_port_field v (blank prefix_v4 prefix_v6) h)

  view_set_shows :
      (prefix_v4 prefix_v6 : ℕ) (f : Field) (port v : ℕ) (m : PortPolicyMap kernel)
      → IsDict m.cache
      → head_is_zero (written_record prefix_v4 prefix_v6 f port v m) ≡ false
      → (view_set kernel prefix_v4 prefix_v6 f port v false m).0 ≡ true
      → let m' = (view_set kernel prefix_v4 prefix_v6 f port v false m).1 in
        (lookup port (active kernel f m') ≡ (if v == 0 then none else some v))
        × ((g : Field) → f ≢ g → lookup port (active kernel g m') ≡ lookup port (active kernel g m))
        × ((g : Field) (p : ℕ)
            → port ≢ p
            → lookup p (active kernel g m') ≡ lookup p (active kernel g m))
  unfolding view_set active
  view_set_shows prefix_v4 prefix_v6 f port v m u kept ok = (self, others, elsewhere)
    where
      r : Fields
      r = written_record prefix_v4 prefix_v6 f port v m

      m' : PortPolicyMap kernel
      m' = (store kernel port r false m).1

      u' : IsDict m'.cache
      u' = store-IsDict port r false m u

      self : lookup port (view_items f m'.cache) ≡ (if v == 0 then none else some v)
      self = ground (
        arith,
        lookup-view_items f port m'.cache u',
        lookup-store port r false m port,
        get_field-set_field_self f v (get_or (lookup port m.cache) (blank prefix_v4 prefix_v6)),
      )

      others :
          (g : Field)
          → f ≢ g
          → lookup port (view_items g m'.cache) ≡ lookup port (view_items g m.cache)
      others g h = ground (
        arith,
        lookup-view_items g port m'.cache u',
        lookup-view_items g port m.cache u,
        lookup-store port r false m port,
        shown_written prefix_v4 prefix_v6 f g v (lookup port m.cache) h,
      )

      elsewhere :
          (g : Field) (p : ℕ)
          → port ≢ p
          → lookup p (view_items g m'.cache) ≡ lookup p (view_items g m.cache)
      elsewhere g p h = ground (
        arith,
        lookup-view_items g p m'.cache u',
        lookup-view_items g p m.cache u,
        lookup-store port r false m p,
      )

  -- Where the record keeps one of its first three limits, a write through a view that is reported
  -- as done shows the new value there; a zero is not shown.
  pub active-view_set :
      (prefix_v4 prefix_v6 : ℕ) (f : Field) (port v : ℕ) (m : PortPolicyMap kernel)
      → IsDict m.cache
      → head_is_zero (written_record prefix_v4 prefix_v6 f port v m) ≡ false
      → (view_set kernel prefix_v4 prefix_v6 f port v false m).0 ≡ true
      → lookup port (active kernel f (view_set kernel prefix_v4 prefix_v6 f port v false m).1)
        ≡ (if v == 0 then none else some v)
  active-view_set prefix_v4 prefix_v6 f port v m u kept ok =
      (view_set_shows prefix_v4 prefix_v6 f port v m u kept ok).0

  -- Such a write shows every other view and every other port as before.
  pub view_set_spares :
      (prefix_v4 prefix_v6 : ℕ) (f g : Field) (port v p : ℕ) (m : PortPolicyMap kernel)
      → IsDict m.cache
      → head_is_zero (written_record prefix_v4 prefix_v6 f port v m) ≡ false
      → (view_set kernel prefix_v4 prefix_v6 f port v false m).0 ≡ true
      → (f ≢ g) ⊎ (port ≢ p)
      → lookup p (active kernel g (view_set kernel prefix_v4 prefix_v6 f port v false m).1)
        ≡ lookup p (active kernel g m)
  view_set_spares prefix_v4 prefix_v6 f g port v p m u kept ok (inr away) =
      (view_set_shows prefix_v4 prefix_v6 f port v m u kept ok).2 g p away
  view_set_spares prefix_v4 prefix_v6 f g port v p m u kept ok (inl other_view) =
      let shows = view_set_shows prefix_v4 prefix_v6 f port v m u kept ok in
      elim (Bool-cases (port == p)) [
        | inl same ↦
            subst
              (λ q.
                lookup q (active kernel g (view_set kernel prefix_v4 prefix_v6 f port v false m).1)
                ≡ lookup q (active kernel g m))
              ((==_iff port p).0 same) (shows.1 g other_view)
        | inr away ↦ shows.2 g p (λ e. absurd (ground (arith, e, away)))
      ]

  -- the two limits that `head_is_zero` does not look at
  abbrev pub IsTail : Field → Type 0
  IsTail f = (f ≡ conn_prefix_field) ⊎ (f ≡ conn_port_field)

  shown_none : (n : ℕ) → (if n == 0 then none else some n) ≡ none → n ≡ 0
  shown_none n h = ground (arith, h)

  head_is_zero_tail :
      (f : Field) (v : ℕ) (r : Fields)
      → IsTail f
      → shown rate_field (some r) ≡ none
      → shown agg_rate_field (some r) ≡ none
      → shown conn_field (some r) ≡ none
      → head_is_zero (set_field f v r) ≡ true
  unfolding get_field set_field
  head_is_zero_tail f v r (inl at_prefix) a b c =
      subst (λ g. head_is_zero (set_field g v r) ≡ true) (sym at_prefix)
        (rw (shown_none r.rate_max a, shown_none r.agg_rate_max b, shown_none r.conn_max c) refl)
  head_is_zero_tail f v r (inr at_port) a b c =
      subst (λ g. head_is_zero (set_field g v r) ≡ true) (sym at_port)
        (rw (shown_none r.rate_max a, shown_none r.agg_rate_max b, shown_none r.conn_max c) refl)

  written_zeros :
      (prefix_v4 prefix_v6 : ℕ) (f : Field) (v : ℕ) (old : Option Fields)
      → IsTail f
      → shown rate_field old ≡ none
      → shown agg_rate_field old ≡ none
      → shown conn_field old ≡ none
      → head_is_zero (set_field f v (get_or old (blank prefix_v4 prefix_v6))) ≡ true
  unfolding get_field
  written_zeros prefix_v4 prefix_v6 f v (some r) t a b c = head_is_zero_tail f v r t a b c
  written_zeros prefix_v4 prefix_v6 f v none t a b c =
      head_is_zero_tail f v (blank prefix_v4 prefix_v6) t refl refl refl

  -- A positive limit on the connections to a port, or to it from one prefix, is lost where the
  -- views show no rate, no aggregate rate and no limit for each source of the port: once the write
  -- is reported as done, no view shows anything for the port, the limit itself included.
  pub view_set_loses :
      (prefix_v4 prefix_v6 : ℕ) (f g : Field) (port v : ℕ) (m : PortPolicyMap kernel)
      → IsDict m.cache
      → IsTail f
      → 0 < v
      → lookup port (active kernel rate_field m) ≡ none
      → lookup port (active kernel agg_rate_field m) ≡ none
      → lookup port (active kernel conn_field m) ≡ none
      → (view_set kernel prefix_v4 prefix_v6 f port v false m).0 ≡ true
      → lookup port (active kernel g (view_set kernel prefix_v4 prefix_v6 f port v false m).1)
        ≡ none
  unfolding view_set active
  view_set_loses prefix_v4 prefix_v6 f g port v m u t positive a b c ok =
      let r = written_record prefix_v4 prefix_v6 f port v m in
      let zeros =
        written_zeros prefix_v4 prefix_v6 f v (lookup port m.cache) t
          (sym (lookup-view_items rate_field port m.cache u) ∙ a)
          (sym (lookup-view_items agg_rate_field port m.cache u) ∙ b)
          (sym (lookup-view_items conn_field port m.cache u) ∙ c) in
      ground (
        arith,
        zeros,
        lookup-view_items g port (store kernel port r false m).1.cache
            (store-IsDict port r false m u),
        lookup-store port r false m port,
      )
