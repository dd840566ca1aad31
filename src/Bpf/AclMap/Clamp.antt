-- ===== src/Bpf/AclMap/Clamp.antt =====
-- The cache of an ACL map and the kernel's map: equal for rules of up to 64 ports.
use auto_xdp.Base.{
  ==_iff, Bool, List, String, [], ap, arith, bool_key, contains, false, inl, inr, length, list_key,
  lookup, lookup-erase, lookup-insert, nat_key, option_key, pair_key, refl, some, string_key, suc,
  take, true, zero, ℕ, ◌∷◌, ◌≡◌, ◌≤◌,
}
use auto_xdp.Bpf.AclMap.{AclMap, acl_max_ports, delete, set}
use auto_xdp.Bpf.Kernel.{KernelMap, Reply-cases, enoent, other_errno}

take_all : (n : ℕ) (ports : List ℕ) → length ports ≤ n → take n ports ≡ ports
unfolding take
take_all zero [] h = refl
take_all zero (p ∷ ports) h = absurd (omega arith)
take_all (suc n) [] h = refl
take_all (suc n) (p ∷ ports) h = ap (◌∷◌ p) (take_all n ports (omega arith))

module _ (kernel : KernelMap String (List ℕ)) (normalize : String → String) where
  -- each network's ports in the cache are the kernel's
  abbrev pub IsCoherent : AclMap kernel → Type 0
  IsCoherent m = (key : String) → lookup key m.cache ≡ kernel.read m.kernel key

  -- Writing a rule of at most 64 ports and deleting a rule keep the cache equal to the kernel's
  -- map, whether the kernel carries the command out or refuses it.
  pub acl_operations-IsCoherent :
      (cidr : String) (ports : List ℕ) (dry_run : Bool) (m : AclMap kernel)
      → length ports ≤ acl_max_ports
      → IsCoherent m
      → IsCoherent (set kernel normalize cidr ports dry_run m).1
        × IsCoherent (delete kernel normalize cidr dry_run m).1
  unfolding set delete
  acl_operations-IsCoherent cidr ports true m fits h = (h, h)
  acl_operations-IsCoherent cidr ports false m fits h = (wrote, removed)
    where
      k : String
      k = normalize cidr

      wrote : IsCoherent (set kernel normalize cidr ports false m).1
      wrote =
          rw (take_all acl_max_ports ports fits)
            (elim (Reply-cases (kernel.update_elem k ports m.kernel).0) [
              | inl (a, e) ↦ λ j. ground (
                arith,
                e,
                h j,
                kernel.update_done k j ports m.kernel e,
                lookup-insert j k ports m.cache,
              )
              | inr (err, e) ↦
                  λ j. ground (arith, e, h j, kernel.update_fails k j ports m.kernel err e)
            ])

      removed : IsCoherent (delete kernel normalize cidr false m).1
      removed = elim (Reply-cases (kernel.delete_elem k m.kernel).0) [
        | inl (a, e) ↦ λ j. ground (
          arith,
          e,
          h j,
          ==_iff k j,
          ==_iff j k,
          kernel.delete_done k j m.kernel e,
          lookup-erase j k m.cache,
        )
        | inr (enoent, e) ↦ λ j. ground (
          arith,
          e,
          h j,
          ==_iff j k,
          kernel.delete_fails k j m.kernel enoent e,
          kernel.delete_enoent k m.kernel e,
          lookup-erase j k m.cache,
        )
        | inr (other_errno n, e) ↦
            λ j. ground (arith, e, h j, kernel.delete_fails k j m.kernel (other_errno n) e)
      ]

  -- A rule of more ports is cut for the kernel and not for the cache: after a write that is
  -- reported as done, a port behind the first 64 is among the cached ports of the network and not
  -- among those that the kernel lets it reach.
  pub acl_set_clamps :
      (cidr : String) (ports : List ℕ) (m : AclMap kernel) (p : ℕ)
      → contains p ports ≡ true
      → contains p (take acl_max_ports ports) ≡ false
      → (set kernel normalize cidr ports false m).0 ≡ true
      → let m' = (set kernel normalize cidr ports false m).1 in
        let key = normalize cidr in
        (allowed : List ℕ) × (lookup key m'.cache ≡ some ports)
        × (kernel.read m'.kernel key ≡ some allowed)
        × (contains p allowed ≡ false)
  unfolding set
  acl_set_clamps cidr ports m p inside cut ok =
      elim (Reply-cases (kernel.update_elem k (take acl_max_ports ports) m.kernel).0) [
        | inl (a, e) ↦ (
          take acl_max_ports ports,
          ground (arith, e, ==_iff k k, lookup-insert k k ports m.cache),
          ground
              (arith, e, ==_iff k k, kernel.update_done k k (take acl_max_ports ports) m.kernel e),
          cut,
        )
        | inr (err, e) ↦ absurd (ground (arith, e))
      ]
    where
      k : String
      k = normalize cidr
