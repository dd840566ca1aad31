-- ===== src/Examples/Maps.antt =====
-- The map classes of auto_xdp/bpf/maps.py over plain dicts.
use auto_xdp.Bpf.AclMap
use auto_xdp.Bpf.ArrayMap
use auto_xdp.Bpf.Conntrack
use auto_xdp.Bpf.PortPolicy
use auto_xdp.Base.{
  List, String, [], arith, bool_key, contains, false, inr, keys, list_key, lookup, nat_key, none,
  option_key, pair_key, refl, some, string_key, suc, take, zero, ℕ, ◌∷◌, ◌≡◌,
}
use auto_xdp.Bpf.AclMap.{AclMap}
use auto_xdp.Bpf.AclMap.Clamp.{acl_set_clamps}
use auto_xdp.Bpf.ArrayMap.{ArrayMap}
use auto_xdp.Bpf.Conntrack.Gc.{gc_expired_keeps}
use auto_xdp.Bpf.Kernel.{KernelMap, done}
use auto_xdp.Bpf.PortPolicy.{Fields}
use auto_xdp.Bpf.PortPolicy.Coherence.{policy_operations-IsCoherent}
use auto_xdp.Bpf.PortPolicy.Views.{active-view_set, view_set_loses}
use auto_xdp.Bpf.Samples.{table_kernel}
use auto_xdp.Samples.{sample_flow}
use auto_xdp.State.{Bytes}

abbrev ports_kernel : KernelMap ℕ ℕ
ports_kernel = table_kernel

abbrev policies_kernel : KernelMap ℕ Fields
policies_kernel = table_kernel

abbrev flows_kernel : KernelMap Bytes ℕ
flows_kernel = table_kernel

abbrev rules_kernel : KernelMap String (List ℕ)
rules_kernel = table_kernel

abbrev web : ArrayMap.ArrayMap ports_kernel
web = record { kernel = ((80, 1) ∷ [], false); cache = 80 ∷ [] }

-- port 443 has a rate and a limit on its connections
abbrev limited : Fields
limited = record {
  rate_max = 400;
  agg_rate_max = 0;
  conn_max = 0;
  prefix_v4 = 32;
  prefix_v6 = 64;
  conn_prefix_max = 0;
  conn_port_max = 7;
  reserved = 0;
}

abbrev policies : PortPolicy.PortPolicyMap policies_kernel
policies = record { kernel = ((443, limited) ∷ [], false); cache = (443, limited) ∷ [] }

abbrev no_policies : PortPolicy.PortPolicyMap policies_kernel
no_policies = record { kernel = ([], false); cache = [] }

policy_operations-IsCoherent_example :
    PortPolicy.Coherence.IsCoherent policies_kernel
      (PortPolicy.view_set policies_kernel 32 64 PortPolicy.conn_field 443 64 false policies).1
    × PortPolicy.Coherence.IsCoherent policies_kernel
        (PortPolicy.view_delete policies_kernel PortPolicy.conn_field 443 false policies).1
    × PortPolicy.Coherence.IsCoherent policies_kernel
        (PortPolicy.ensure_prefixes policies_kernel (443 ∷ []) 32 64 false policies)
policy_operations-IsCoherent_example =
    policy_operations-IsCoherent policies_kernel 32 64 PortPolicy.conn_field 443 64 (443 ∷ []) false
      policies (λ p. refl)

active-view_set_example :
    lookup 443 (
      PortPolicy.active policies_kernel PortPolicy.conn_field
        (PortPolicy.view_set policies_kernel 32 64 PortPolicy.conn_field 443 64 false policies).1)
    ≡ some 64
unfolding lookup PortPolicy.view_set PortPolicy.store PortPolicy.set_fields PortPolicy.set_field
active-view_set_example =
    active-view_set policies_kernel 32 64 PortPolicy.conn_field 443 64 policies (refl, tt) refl refl

-- a limit of 7 connections to port 8080, which has no rate
view_set_loses_example :
    lookup 8080 (
      PortPolicy.active policies_kernel PortPolicy.conn_port_field
        (PortPolicy.view_set policies_kernel 32 64 PortPolicy.conn_port_field 8080 7 false
          no_policies).1)
    ≡ none
unfolding lookup PortPolicy.view_set PortPolicy.store PortPolicy.delete PortPolicy.set_field
    PortPolicy.active PortPolicy.view_items
view_set_loses_example =
    view_set_loses policies_kernel 32 64 PortPolicy.conn_port_field PortPolicy.conn_port_field 8080
      7 no_policies tt (inr refl) (omega arith) refl refl refl refl

abbrev flows : Conntrack.ConntrackMap flows_kernel
flows = record {
  kernel = ((sample_flow 80, 100) ∷ (sample_flow 22, 5) ∷ [], false);
  cache = sample_flow 80 ∷ sample_flow 22 ∷ [];
}

-- at time 320 the flow to port 22 is evicted and the one to port 80 stays
gc_evicts : (Conntrack.gc_expired flows_kernel 320 300 none flows).0 ≡ done 1
unfolding Conntrack.gc_expired Conntrack.stale_keys Conntrack.delete_each Conntrack.delete
    Conntrack.is_expired keys lookup
gc_evicts = refl

gc_expired_keeps_example :
    flows_kernel.read
      (Conntrack.gc_expired flows_kernel 320 300 none flows).1.kernel
      (sample_flow 80)
    ≡ some 100
unfolding lookup Conntrack.is_expired
gc_expired_keeps_example =
    gc_expired_keeps flows_kernel 320 300 none flows (sample_flow 80) 100 refl refl

abbrev rules : AclMap.AclMap rules_kernel
rules = record { kernel = ([], false); cache = [] }

-- the ports from n down to 1
abbrev ports_down : ℕ → List ℕ
ports_down zero = []
ports_down (suc n) = suc n ∷ ports_down n

-- of the ports 65 to 1, the last is cut
acl_set_clamps_example :
    let m' = (AclMap.set rules_kernel (λ text. text) "10.0.0.0/8" (ports_down 65) false rules).1 in
    (allowed : List ℕ) × (lookup "10.0.0.0/8" m'.cache ≡ some (ports_down 65))
    × (rules_kernel.read m'.kernel "10.0.0.0/8" ≡ some allowed)
    × (contains 1 allowed ≡ false)
unfolding contains take AclMap.set
acl_set_clamps_example =
    acl_set_clamps rules_kernel (λ text. text) "10.0.0.0/8" (ports_down 65) rules 1 refl refl refl
