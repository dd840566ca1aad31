-- ===== src/Bpf/LpmMap.antt =====
-- `BpfLpmMap`, `BpfTrustedMaps` and `BpfSit4EndpointsMap` of auto_xdp/bpf/maps.py: sets of
-- networks and addresses. The kernel's keys stand for their normal texts, as `_unpack_key` prints
-- them; `normalize` is what `ipaddress` makes of a text.
use auto_xdp.Base.{
  ==_iff, Bool, Bool-cases, List, String, add, arith, bool_key, contains, contains-add,
  contains-discard, discard, false, if◌then◌else◌, inl, inr, is_some, list_key, nat_key, not,
  option_key, pair_key, string_key, suc, true, union, ℕ, ◌&&◌, ◌==◌, ◌||◌, ◌≡◌,
}
use auto_xdp.Bpf.Kernel.{
  Cached, KernelMap, Reply, Reply-cases, done, enoent, fails, has_colon, other_errno,
}

module _ (kernel : KernelMap String ℕ) where
  abbrev pub LpmMap : Type 0
  LpmMap = Cached kernel.State (List String)

  delete_reply : String → LpmMap → Reply (Unit {0}) × kernel.State → Bool × LpmMap
  delete_reply key m (done _, s) = (true, record { kernel = s; cache = discard key m.cache })
  delete_reply key m (fails enoent, s) = (true, record { kernel = s; cache = discard key m.cache })
  delete_reply key m (fails (other_errno n), s) = (false, record m { kernel = s })

  set_reply : String → LpmMap → Reply (Unit {0}) × kernel.State → Bool × LpmMap
  set_reply key m (done _, s) = (true, record { kernel = s; cache = add key m.cache })
  set_reply key m (fails e, s) = (false, record m { kernel = s })

  module _ (normalize : String → String) where
    unfoldable pub delete : String → Bool → LpmMap → Bool × LpmMap
    unfolding delete_reply
    delete cidr dry_run m =
        let key = normalize cidr in
        if dry_run then (true, m) else delete_reply key m (kernel.delete_elem key m.kernel)

    unfoldable pub set : String → ℕ → Bool → LpmMap → Bool × LpmMap
    unfolding set_reply
    set cidr val dry_run m =
        let key = normalize cidr in
        if val == 0
        then delete cidr dry_run m
        else if dry_run
        then (true, m)
        else set_reply key m (kernel.update_elem key 1 m.kernel)

  -- the cache has exactly the networks that the kernel's map has
  abbrev pub IsCoherent : LpmMap → Type 0
  IsCoherent m = (key : String) → contains key m.cache ≡ is_some (kernel.read m.kernel key)

  module _ (normalize : String → String) where
    delete-IsCoherent :
        (cidr : String) (dry_run : Bool) (m : LpmMap)
        → IsCoherent m
        → IsCoherent (delete normalize cidr dry_run m).1
    unfolding delete
    delete-IsCoherent cidr true m h = h
    delete-IsCoherent cidr false m h =
        elim (Reply-cases (kernel.delete_elem (normalize cidr) m.kernel).0) [
          | inl (a, e) ↦ λ key. ground (
            arith,
            e,
            h key,
            ==_iff (normalize cidr) key,
            ==_iff key (normalize cidr),
            kernel.delete_done (normalize cidr) key m.kernel e,
            contains-discard key (normalize cidr) m.cache,
          )
          | inr (enoent, e) ↦ λ key. ground (
            arith,
            e,
            h key,
            ==_iff key (normalize cidr),
            kernel.delete_fails (normalize cidr) key m.kernel enoent e,
            kernel.delete_enoent (normalize cidr) m.kernel e,
            contains-discard key (normalize cidr) m.cache,
          )
          | inr (other_errno n, e) ↦ λ key.
              ground (
                arith,
                e,
                h key,
                kernel.delete_fails (normalize cidr) key m.kernel (other_errno n) e,
              )
        ]

    set-IsCoherent :
        (cidr : String) (val : ℕ) (dry_run : Bool) (m : LpmMap)
        → IsCoherent m
        → IsCoherent (set normalize cidr val dry_run m).1
    unfolding set
    set-IsCoherent cidr val dry_run m h = elim (Bool-cases (val == 0)) [
      | inl off ↦ rw off (delete-IsCoherent cidr dry_run m h)
      | inr on ↦ rw on (written dry_run)
    ]
      where
        key : String
        key = normalize cidr

        written :
            (dry : Bool)
            → IsCoherent
                (if dry then (true, m) else set_reply key m (kernel.update_elem key 1 m.kernel)).1
        written true = h
        written false = elim (Reply-cases (kernel.update_elem key 1 m.kernel).0) [
          | inl (a, e) ↦ λ j.
              ground
                (arith, e, h j, kernel.update_done key j 1 m.kernel e, contains-add j key m.cache)
          | inr (err, e) ↦ λ j. ground (arith, e, h j, kernel.update_fails key j 1 m.kernel err e)
        ]

    -- A network that is added, if that is reported as done outside `dry_run`, is in the set in its
    -- normal form; nothing else changes.
    pub contains-set :
        (cidr : String) (v : ℕ) (dry_run : Bool) (m : LpmMap) (key : String)
        → contains key (set normalize cidr (suc v) dry_run m).1.cache ≡ (
            (set normalize cidr (suc v) dry_run m).0 && not dry_run && normalize cidr == key
            || contains key m.cache)
    unfolding set
    contains-set cidr v true m key = ground arith
    contains-set cidr v false m key = ground (arith, contains-add key (normalize cidr) m.cache)

    -- A network that is deleted, if that is reported as done outside `dry_run`, is not in the set
    -- in its normal form; nothing else changes.
    pub contains-delete :
        (cidr : String) (dry_run : Bool) (m : LpmMap) (key : String)
        → contains key (delete normalize cidr dry_run m).1.cache ≡ (
            contains key m.cache
            && not ((delete normalize cidr dry_run m).0 && not dry_run && key == normalize cidr))
    unfolding delete
    contains-delete cidr true m key = ground arith
    contains-delete cidr false m key = ground (arith, contains-discard key (normalize cidr) m.cache)

-- The IPv4 and the IPv6 map of trusted networks; a text with a colon is IPv6.
module _ (kernel : KernelMap String ℕ) (normalize : String → String) where
  pub record TrustedMaps : Type 0 where
    pub map4 : LpmMap kernel
    pub map6 : LpmMap kernel

  unfoldable pub trusted_active_keys : TrustedMaps → List String
  trusted_active_keys t = union t.map4.cache t.map6.cache

  unfoldable pub trusted_set : String → ℕ → Bool → TrustedMaps → Bool × TrustedMaps
  trusted_set cidr val dry_run t =
      if has_colon cidr
      then (let (fine, m) = set kernel normalize cidr val dry_run t.map6 in
          (fine, record t { map6 = m }))
      else (let (fine, m) = set kernel normalize cidr val dry_run t.map4 in
          (fine, record t { map4 = m }))

  unfoldable pub trusted_delete : String → Bool → TrustedMaps → Bool × TrustedMaps
  trusted_delete cidr dry_run t =
      if has_colon cidr
      then (let (fine, m) = delete kernel normalize cidr dry_run t.map6 in
          (fine, record t { map6 = m }))
      else (let (fine, m) = delete kernel normalize cidr dry_run t.map4 in
          (fine, record t { map4 = m }))
