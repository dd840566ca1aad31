-- ===== src/Bpf/Samples.antt =====
-- A kernel map on which the theorems' examples run: a dict, with room for new values or not.
use auto_xdp.Base.{
  Bool, Bool-cases, Dict, Key, List, Option, Option-cases, ap, bool_key, contains, contains-keys,
  eqb_sym, erase, false, if◌then◌else◌, inl, inr, insert, is_some, keys, list_key, lookup,
  lookup-erase, lookup-insert, nat_key, none, option_key, pair_key, refl, some, string_key, subst,
  true, ◌==◌, ◌∙◌, ◌≡◌,
}
use auto_xdp.Bpf.Kernel.{Errno, KernelMap, Reply, done, enoent, fails, other_errno}

abbrev pub Table : Type 0 → Type 0 → Type 0
Table K V = Dict K V × Bool

abbrev pub reply_of : {V : Type 0} → Option V → Reply V
reply_of none = fails enoent
reply_of (some v) = done v

pub reply_of_done : {V : Type 0} (o : Option V) (v : V) → reply_of o ≡ done v → o ≡ some v
reply_of_done none v h = absurd (cc)
reply_of_done (some w) v h = cc

pub reply_of_enoent : {V : Type 0} (o : Option V) → reply_of o ≡ fails enoent → o ≡ none
reply_of_enoent none h = refl
reply_of_enoent (some w) h = absurd (cc)

module _ {K V : Type 0} ⦃k : Key K⦄ where
  abbrev pub update_table : K → V → Table K V → Reply (Unit {0}) × Table K V
  update_table i v (d, true) = (fails (other_errno 7), (d, true))
  update_table i v (d, false) = (done tt, (insert i v d, false))

  abbrev pub delete_table : K → Table K V → Reply (Unit {0}) × Table K V
  delete_table i (d, full) =
      if is_some (lookup i d) then (done tt, (erase i d, full)) else (fails enoent, (d, full))

  pub update_done_law :
      (i j : K) (v : V) (s : Table K V)
      → (update_table i v s).0 ≡ done tt
      → lookup j (update_table i v s).1.0 ≡ (if i == j then some v else lookup j s.0)
  update_done_law i j v (d, true) h = absurd (cc)
  update_done_law i j v (d, false) h = lookup-insert j i v d

  pub update_fails_law :
      (i j : K) (v : V) (s : Table K V) (e : Errno)
      → (update_table i v s).0 ≡ fails e
      → lookup j (update_table i v s).1.0 ≡ lookup j s.0
  update_fails_law i j v (d, true) e h = refl
  update_fails_law i j v (d, false) e h = absurd (cc)

  pub delete_done_law :
      (i j : K) (s : Table K V)
      → (delete_table i s).0 ≡ done tt
      → lookup j (delete_table i s).1.0 ≡ (if i == j then none else lookup j s.0)
  delete_done_law i j (d, full) h = elim (Bool-cases (is_some (lookup i d))) [
    | inl there ↦
        rw there (lookup-erase j i d ∙ ap (λ b. if b then none else lookup j d) (eqb_sym j i))
    | inr gone ↦ absurd (cc)
  ]

  pub delete_fails_law :
      (i j : K) (s : Table K V) (e : Errno)
      → (delete_table i s).0 ≡ fails e
      → lookup j (delete_table i s).1.0 ≡ lookup j s.0
  delete_fails_law i j (d, full) e h = elim (Bool-cases (is_some (lookup i d))) [
    | inl there ↦ absurd (cc)
    | inr gone ↦ rw gone refl
  ]

  pub delete_enoent_law :
      (i : K) (s : Table K V) → (delete_table i s).0 ≡ fails enoent → lookup i s.0 ≡ none
  delete_enoent_law i (d, full) h = elim (Option-cases (lookup i d)) [
    | inl gone ↦ gone
    | inr (v, there) ↦ absurd (cc)
  ]

  pub walk_law :
      (d : Dict K V) (ks : List K) (j : K)
      → done (keys d) ≡ done ks
      → contains j ks ≡ is_some (lookup j d)
  walk_law d ks j h = subst (λ r. Listed r j (lookup j d)) h (contains-keys j d)
    where
      Listed : Reply (List K) → K → Option V → Type 0
      Listed (done l) i o = contains i l ≡ is_some o
      Listed (fails e) i o = Unit

  abbrev pub table_kernel : KernelMap K V
  table_kernel = record {
    State = Table K V;
    read = λ s i. lookup i s.0;
    update_elem = update_table;
    delete_elem = delete_table;
    lookup_elem = λ i s. (reply_of (lookup i s.0), s);
    walk = λ s. (done (keys s.0), s);
    update_done = update_done_law;
    update_fails = update_fails_law;
    delete_done = delete_done_law;
    delete_fails = delete_fails_law;
    delete_enoent = delete_enoent_law;
    lookup_keeps = λ i j s. refl;
    lookup_done = λ i v s. reply_of_done (lookup i s.0) v;
    lookup_enoent = λ i s. reply_of_enoent (lookup i s.0);
    walk_keeps = λ j s. refl;
    walk_done = λ ks j s. walk_law s.0 ks j;
  }
