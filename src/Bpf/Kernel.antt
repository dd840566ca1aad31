-- ===== src/Bpf/Kernel.antt =====
-- What auto_xdp/bpf/maps.py relies on of the kernel's bpf(2) commands on one map. The kernel is a
-- parameter: its state is opaque, `read` says what a map holds, and the laws are those that
-- bpf(2) documents for updates, deletions and lookups.
use Prim.Native.Char.{code}
use auto_xdp.Base.{
  Bool, Key, List, Option, String, [], arith, bool_key, contains, false, if◌then◌else◌, inl, inr,
  is_some, list_key, nat_key, none, option_key, pair_key, refl, some, string_key, true, ℕ, ◌+◌,
  ◌==◌, ◌||◌, ◌∷◌, ◌≡◌, ◌⊎◌,
}

-- `OSError.errno`: the code tells ENOENT from the others
pub data Errno : Type 0 where
  enoent : Errno
  other_errno : ℕ → Errno

pub data Reply {ℓ} (A : Type ℓ) : Type ℓ where
  done : A → Reply A
  fails : Errno → Reply A

pub record KernelMap (K V : Type 0) ⦃k : Key K⦄ : Type 1 where
  pub State : Type 0
  pub read : State → K → Option V
  -- BPF_MAP_UPDATE_ELEM, BPF_MAP_DELETE_ELEM, BPF_MAP_LOOKUP_ELEM
  pub update_elem : K → V → State → Reply (Unit {0}) × State
  pub delete_elem : K → State → Reply (Unit {0}) × State
  pub lookup_elem : K → State → Reply V × State
  -- the walk by BPF_MAP_GET_NEXT_KEY
  pub walk : State → Reply (List K) × State
  pub update_done :
      (i j : K) (v : V) (s : State)
      → (update_elem i v s).0 ≡ done tt
      → read (update_elem i v s).1 j ≡ (if i == j then some v else read s j)
  pub update_fails :
      (i j : K) (v : V) (s : State) (e : Errno)
      → (update_elem i v s).0 ≡ fails e
      → read (update_elem i v s).1 j ≡ read s j
  pub delete_done :
      (i j : K) (s : State)
      → (delete_elem i s).0 ≡ done tt
      → read (delete_elem i s).1 j ≡ (if i == j then none else read s j)
  pub delete_fails :
      (i j : K) (s : State) (e : Errno)
      → (delete_elem i s).0 ≡ fails e
      → read (delete_elem i s).1 j ≡ read s j
  pub delete_enoent : (i : K) (s : State) → (delete_elem i s).0 ≡ fails enoent → read s i ≡ none
  pub lookup_keeps : (i j : K) (s : State) → read (lookup_elem i s).1 j ≡ read s j
  pub lookup_done : (i : K) (v : V) (s : State) → (lookup_elem i s).0 ≡ done v → read s i ≡ some v
  pub lookup_enoent : (i : K) (s : State) → (lookup_elem i s).0 ≡ fails enoent → read s i ≡ none
  pub walk_keeps : (j : K) (s : State) → read (walk s).1 j ≡ read s j
  pub walk_done :
      (ks : List K) (j : K) (s : State) → (walk s).0 ≡ done ks → contains j ks ≡ is_some (read s j)

-- An object of a map class: the kernel's map and the local mirror of it.
pub record Cached (S C : Type 0) : Type 0 where
  pub kernel : S
  pub cache : C

-- `":" in text`, which tells an IPv6 text from an IPv4 one
unfoldable pub has_colon : String → Bool
has_colon String.[] = false
has_colon (String.◌∷◌ c text) = code c == b':' || has_colon text

-- A command's reply is one of two.
pub Reply-cases {ℓ} :
    {A : Type ℓ} (r : Reply A) → ((a : A) × (r ≡ done a)) ⊎ ((e : Errno) × (r ≡ fails e))
Reply-cases (done a) = inl (a, refl)
Reply-cases (fails e) = inr (e, refl)

-- A loop over one map that counts the operations which returned False, as `_ok` does.
unfoldable pub sweep : {A M : Type 0} → (A → M → Bool × M) → List A → M → ℕ × M
sweep op [] m = (0, m)
sweep op (a ∷ rest) m =
    let (fine, m') = op a m in
    let (failures, m'') = sweep op rest m' in (if fine then failures else failures + 1, m'')

-- What every operation of the loop keeps, the loop keeps.
pub sweep_inv {ℓ} :
    {A M : Type 0} (P : M → Type ℓ) (op : A → M → Bool × M)
    → ((a : A) (m : M) → P m → P (op a m).1)
    → (rest : List A) (m : M) → P m
    → P (sweep op rest m).1
unfolding sweep
sweep_inv P op keep [] m h = h
sweep_inv P op keep (a ∷ rest) m h = sweep_inv P op keep rest (op a m).1 (keep a m h)

-- A loop without a failure has none in its first operation, nor in those after it.
pub sweep_clean :
    {A M : Type 0} (op : A → M → Bool × M) (a : A) (rest : List A) (m : M)
    → (sweep op (a ∷ rest) m).0 ≡ 0
    → ((op a m).0 ≡ true) × ((sweep op rest (op a m).1).0 ≡ 0)
unfolding sweep
sweep_clean op a rest m h = ground arith
