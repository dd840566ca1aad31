-- ===== src/Backend/Idle.antt =====
-- The loops of auto_xdp/backends/xdp.py under `dry_run`: none changes a map, none counts a failure.
use auto_xdp.Bpf.AclMap
use auto_xdp.Bpf.ArrayMap
use auto_xdp.Bpf.LpmMap
use auto_xdp.Bpf.PortPolicy
use auto_xdp.Bpf.RateOuter
use auto_xdp.Bpf.Conntrack
use auto_xdp.Base.{
  Bool, Bool-cases, Dict, List, Option, Option-cases, String, [], arith, bool_key, contains,
  difference, filter, filter_items, get_or, inl, inr, keys, leb, list_key, lookup, nat_key, none,
  not, option_key, pair_key, refl, some, sort, string_key, text_leb, true, ℕ, ◌==◌, ◌∷◌, ◌≡◌,
}
use auto_xdp.Backend.{Kernels}
use auto_xdp.Backend.Phases.{
  acl_delta, both, over, rate_map_delta, rate_outer_delta, sit4_delta, trusted_delta, write_ports,
}
use auto_xdp.Bpf.AclMap.{AclMap, map_for}
use auto_xdp.Bpf.AclMaps.{acl_map, delete_rule, put_acl_map, set_rule}
use auto_xdp.Bpf.ArrayMap.{ArrayMap}
use auto_xdp.Bpf.ConntrackMaps.{ConntrackMaps, close_flows}
use auto_xdp.Bpf.Kernel.{sweep}
use auto_xdp.Bpf.LpmMap.{LpmMap}
use auto_xdp.Bpf.PortPolicy.{Field, Fields, set_field}
use auto_xdp.Config.{Config, Float}
use auto_xdp.State.{Bytes, ReconcilePlan}

-- a loop of operations that change nothing
pub sweep_idle :
    {A M : Type 0} (op : A → M → Bool × M) (rest : List A) (m : M)
    → ((a : A) (n : M) → op a n ≡ (true, n))
    → sweep op rest m ≡ (0, m)
unfolding sweep
sweep_idle op [] m h = refl
sweep_idle op (a ∷ rest) m h = rw (h a m, sweep_idle op rest m h) refl

pub sweeps_idle :
    {A B M : Type 0} (first : A → M → Bool × M) (xs : List A) (second : B → M → Bool × M)
    (ys : List B) (m : M)
    → ((a : A) (n : M) → first a n ≡ (true, n))
    → ((b : B) (n : M) → second b n ≡ (true, n))
    → both (sweep first xs) (sweep second ys) m ≡ (0, m)
sweeps_idle first xs second ys m f g = rw (sweep_idle first xs m f, sweep_idle second ys m g) refl

pub both_idle :
    {M : Type 0} (first second : M → ℕ × M) (m : M)
    → first m ≡ (0, m)
    → second m ≡ (0, m)
    → both first second m ≡ (0, m)
both_idle first second m f s = rw (f, s) refl

pub over_idle :
    {M : Type 0} (loop : M → ℕ × M) (o : Option M)
    → ((m : M) → loop m ≡ (0, m))
    → over loop o ≡ (0, o)
over_idle loop none h = refl
over_idle loop (some m) h = rw (h m) refl

module _ (k : Kernels) {F : Float} (cfg : Config F) where
  pub write_ports_idle :
      (val : ℕ) (ports : List ℕ) (m : ArrayMap.ArrayMap k.ports)
      → write_ports k cfg val ports true m ≡ (0, m)
  unfolding write_ports ArrayMap.set
  write_ports_idle val ports m =
      sweep_idle (λ port. ArrayMap.set k.ports port val true) (sort leb ports) m (λ a n. refl)

  pub delete_each_idle :
      (flows : List Bytes) (m : Conntrack.ConntrackMap k.flows)
      → (Conntrack.delete_each k.flows flows true m).1 ≡ m
  unfolding Conntrack.delete_each Conntrack.delete
  delete_each_idle [] m = refl
  delete_each_idle (key ∷ flows) m = delete_each_idle flows m

  pub delete_dest_ports_idle :
      (ports : List ℕ) (m : Conntrack.ConntrackMap k.flows)
      → (Conntrack.delete_dest_ports k.flows ports true m).1 ≡ m
  unfolding Conntrack.delete_dest_ports
  delete_dest_ports_idle ports m = elim (Bool-cases (ports == [])) [
    | inl empty ↦ rw empty refl
    | inr some_port ↦
        rw some_port
          (delete_each_idle (filter (λ key. contains (Conntrack.dest_port key) ports) m.cache) m)
  ]

  pub close_flows_idle :
      (ports : List ℕ) (t : ConntrackMaps k.flows) → (close_flows k.flows ports true t).1 ≡ t
  unfolding close_flows
  close_flows_idle ports t = λ i. record {
    map4 = delete_dest_ports_idle ports t.map4 i;
    map6 = delete_dest_ports_idle ports t.map6 i;
  }

  pub store_idle :
      (port : ℕ) (fields : Fields) (m : PortPolicy.PortPolicyMap k.policies)
      → PortPolicy.store k.policies port fields true m ≡ (true, m)
  unfolding PortPolicy.store PortPolicy.delete PortPolicy.set_fields
  store_idle port fields m = ground arith

  pub view_delete_idle :
      (f : Field) (port : ℕ) (m : PortPolicy.PortPolicyMap k.policies)
      → PortPolicy.view_delete k.policies f port true m ≡ (true, m)
  unfolding PortPolicy.view_delete PortPolicy.delete
  view_delete_idle f port m = elim (Option-cases (lookup port m.cache)) [
    | inl absent ↦ rw (PortPolicy.view_delete, absent) refl
    | inr (current, found) ↦
        rw (PortPolicy.view_delete, found) (store_idle port (set_field f 0 current) m)
  ]

  pub rate_map_delta_idle :
      (f : Field) (upserts : Dict ℕ ℕ) (removals : List ℕ) (m : PortPolicy.PortPolicyMap k.policies)
      → rate_map_delta k cfg f upserts removals true m ≡ (0, m)
  unfolding rate_map_delta PortPolicy.view_set
  rate_map_delta_idle f upserts removals m =
      sweeps_idle
        (λ (e : ℕ × ℕ).
          PortPolicy.view_set k.policies cfg.rate_limit_source_prefix_v4
            cfg.rate_limit_source_prefix_v6 f e.0 e.1 true)
        upserts (λ port. PortPolicy.view_delete k.policies f port true) removals m
        (λ e n.
          store_idle e.0
            (set_field f e.1 (
              get_or (lookup e.0 n.cache)
                (PortPolicy.blank cfg.rate_limit_source_prefix_v4 cfg.rate_limit_source_prefix_v6)))
            n)
        (λ port n. view_delete_idle f port n)

  pub rate_outer_delta_idle :
      (desired : Dict ℕ ℕ) (m : RateOuter.RateOuterMap k.rate_slots k.map_create)
      → rate_outer_delta k cfg desired true m ≡ (0, m)
  unfolding rate_outer_delta RateOuter.set RateOuter.delete
  rate_outer_delta_idle desired m =
      sweeps_idle (λ (e : ℕ × ℕ). RateOuter.set k.rate_slots k.map_create e.0 e.1 true)
        (filter_items (λ port entries. not (lookup port m.cache == some entries)) desired)
        (λ port. RateOuter.delete k.rate_slots k.map_create port true)
        (difference (keys m.cache) (keys desired)) m (λ e n. ground arith) (λ port n. ground arith)

  pub acl_delta_idle :
      (plan : ReconcilePlan) (m : AclMap.AclMaps k.rules) → acl_delta k cfg plan true m ≡ (0, m)
  unfolding acl_delta set_rule delete_rule AclMap.set AclMap.delete
  acl_delta_idle plan m =
      sweeps_idle
        (λ (e : (String × String) × List ℕ).
          set_rule k.rules k.normalize e.0.0 e.0.1 (sort leb e.1) true)
        plan.acl_rules_to_upsert
        (λ (rule : String × String). delete_rule k.rules k.normalize rule.0 rule.1 true)
        plan.acl_rules_to_remove m (λ e n i. (true, slot_kept (map_for e.0.0 e.0.1) n i))
        (λ e n i. (true, slot_kept (map_for e.0 e.1) n i))
    where
      slot_kept :
          (slot : AclMap.AclSlot) (n : AclMap.AclMaps k.rules)
          → put_acl_map k.rules k.normalize slot (acl_map k.rules k.normalize slot n) n ≡ n
      slot_kept AclMap.tcp4 n = refl
      slot_kept AclMap.tcp6 n = refl
      slot_kept AclMap.udp4 n = refl
      slot_kept AclMap.udp6 n = refl

  pub trusted_delta_idle :
      (plan : ReconcilePlan) (m : LpmMap.TrustedMaps k.networks k.normalize)
      → trusted_delta k cfg plan true m ≡ (0, m)
  unfolding trusted_delta LpmMap.trusted_set LpmMap.trusted_delete LpmMap.set LpmMap.delete
  trusted_delta_idle plan m =
      sweeps_idle (λ cidr. LpmMap.trusted_set k.networks k.normalize cidr 1 true)
        (sort text_leb plan.trusted_cidrs_to_add)
        (λ cidr. LpmMap.trusted_delete k.networks k.normalize cidr true)
        (sort text_leb (difference plan.trusted_cidrs_to_remove (keys cfg.trusted_src_ips))) m
        (λ cidr n. ground arith) (λ cidr n. ground arith)

  pub sit4_delta_idle : (m : LpmMap.LpmMap k.networks) → sit4_delta k cfg true m ≡ (0, m)
  unfolding sit4_delta LpmMap.set LpmMap.delete
  sit4_delta_idle m =
      sweeps_idle (λ ip. LpmMap.set k.networks (λ text. text) ip 1 true)
        (sort text_leb (difference cfg.sit4_endpoints m.cache))
        (λ ip. LpmMap.delete k.networks (λ text. text) ip true)
        (sort text_leb (difference m.cache cfg.sit4_endpoints)) m (λ ip n. refl) (λ ip n. refl)
