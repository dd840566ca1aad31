-- ===== src/Bpf/PortPolicy.antt =====
-- `BpfPortPolicyMap` and `BpfPortPolicyViewMap` of auto_xdp/bpf/maps.py: one record of limits to a
-- port, and the views by which the backend writes one limit at a time. A number of a record is one
-- of 32 bits: a larger one, for which `struct.pack_into` raises a struct.error that ends the round,
-- is beyond this model.
pub mod Views
pub mod Coherence
pub mod Layout
use auto_xdp.Base.{
  Bool, Dict, List, [], bool_key, erase, false, get_or, if◌then◌else◌, insert, list_key, lookup,
  nat_key, none, option_key, pair_key, some, string_key, true, ℕ, ◌&&◌, ◌==◌, ◌∷◌,
}
use auto_xdp.Bpf.Kernel.{Cached, KernelMap, Reply, done, enoent, fails, other_errno}

-- the eight numbers of a record, in the order of `_STRUCT_FMT`
pub record Fields : Type 0 where
  pub rate_max : ℕ
  pub agg_rate_max : ℕ
  pub conn_max : ℕ
  pub prefix_v4 : ℕ
  pub prefix_v6 : ℕ
  pub conn_prefix_max : ℕ
  pub conn_port_max : ℕ
  pub reserved : ℕ

-- the field indices 0, 1, 2, 5, 6 that the backend opens views for
pub data Field : Type 0 where
  rate_field agg_rate_field conn_field conn_prefix_field conn_port_field : Field

unfoldable pub get_field : Field → Fields → ℕ
get_field rate_field r = r.rate_max
get_field agg_rate_field r = r.agg_rate_max
get_field conn_field r = r.conn_max
get_field conn_prefix_field r = r.conn_prefix_max
get_field conn_port_field r = r.conn_port_max

unfoldable pub set_field : Field → ℕ → Fields → Fields
set_field rate_field v r = record r { rate_max = v }
set_field agg_rate_field v r = record r { agg_rate_max = v }
set_field conn_field v r = record r { conn_max = v }
set_field conn_prefix_field v r = record r { conn_prefix_max = v }
set_field conn_port_field v r = record r { conn_port_max = v }

-- `fields[:3] == (0, 0, 0)`
abbrev pub head_is_zero : Fields → Bool
head_is_zero r = r.rate_max == 0 && r.agg_rate_max == 0 && r.conn_max == 0

abbrev fields_eq : Fields → Fields → Bool
fields_eq a b =
    a.rate_max == b.rate_max
    && a.agg_rate_max == b.agg_rate_max
    && a.conn_max == b.conn_max
    && a.prefix_v4 == b.prefix_v4
    && a.prefix_v6 == b.prefix_v6
    && a.conn_prefix_max == b.conn_prefix_max
    && a.conn_port_max == b.conn_port_max
    && a.reserved == b.reserved

-- `{port: fields[i] for port, fields in d.items() if fields[i] != 0}`
unfoldable pub view_items : Field → Dict ℕ Fields → Dict ℕ ℕ
view_items f [] = []
view_items f ((port, fields) ∷ rest) =
    let more = view_items f rest in
    let v = get_field f fields in if v == 0 then more else (port, v) ∷ more

-- the record that a port without one starts from: the configured source prefixes, else zeros
abbrev pub blank : ℕ → ℕ → Fields
blank prefix_v4 prefix_v6 = record {
  rate_max = 0;
  agg_rate_max = 0;
  conn_max = 0;
  prefix_v4 = prefix_v4;
  prefix_v6 = prefix_v6;
  conn_prefix_max = 0;
  conn_port_max = 0;
  reserved = 0;
}

module _ (kernel : KernelMap ℕ Fields) where
  abbrev pub PortPolicyMap : Type 0
  PortPolicyMap = Cached kernel.State (Dict ℕ Fields)

  set_fields_reply :
      ℕ → Fields → PortPolicyMap → Reply (Unit {0}) × kernel.State → Bool × PortPolicyMap
  set_fields_reply port fields m (done _, s) =
      (true, record { kernel = s; cache = insert port fields m.cache })
  set_fields_reply port fields m (fails e, s) = (false, record m { kernel = s })

  unfoldable pub set_fields : ℕ → Fields → Bool → PortPolicyMap → Bool × PortPolicyMap
  unfolding set_fields_reply
  set_fields port fields dry_run m =
      if dry_run
      then (true, m)
      else set_fields_reply port fields m (kernel.update_elem port fields m.kernel)

  delete_reply : ℕ → PortPolicyMap → Reply (Unit {0}) × kernel.State → Bool × PortPolicyMap
  delete_reply port m (done _, s) = (true, record { kernel = s; cache = erase port m.cache })
  delete_reply port m (fails enoent, s) = (true, record { kernel = s; cache = erase port m.cache })
  delete_reply port m (fails (other_errno n), s) = (false, record m { kernel = s })

  unfoldable pub delete : ℕ → Bool → PortPolicyMap → Bool × PortPolicyMap
  unfolding delete_reply
  delete port dry_run m =
      if dry_run then (true, m) else delete_reply port m (kernel.delete_elem port m.kernel)

  -- one round of the loop of `ensure_prefixes`
  unfoldable pub ensure_prefix : ℕ → ℕ → Bool → ℕ → PortPolicyMap → PortPolicyMap
  ensure_prefix prefix_v4 prefix_v6 dry_run port m = elim (lookup port m.cache) [
    | none ↦ m
    | some current ↦
        let fields = record current { prefix_v4 = prefix_v4; prefix_v6 = prefix_v6 } in
        if fields_eq fields current then m else (set_fields port fields dry_run m).1
  ]

  unfoldable pub ensure_prefixes : List ℕ → ℕ → ℕ → Bool → PortPolicyMap → PortPolicyMap
  unfolding ensure_prefix
  ensure_prefixes [] prefix_v4 prefix_v6 dry_run m = m
  ensure_prefixes (port ∷ ports) prefix_v4 prefix_v6 dry_run m =
      ensure_prefixes ports prefix_v4 prefix_v6 dry_run
        (ensure_prefix prefix_v4 prefix_v6 dry_run port m)

  -- `BpfPortPolicyViewMap.active`
  unfoldable pub active : Field → PortPolicyMap → Dict ℕ ℕ
  active f m = view_items f m.cache

  -- the end of both view operations
  unfoldable pub store : ℕ → Fields → Bool → PortPolicyMap → Bool × PortPolicyMap
  store port fields dry_run m =
      if head_is_zero fields then delete port dry_run m else set_fields port fields dry_run m

  -- `BpfPortPolicyViewMap.set` and `.delete`; the two prefixes are the configured ones
  unfoldable pub view_set : ℕ → ℕ → Field → ℕ → ℕ → Bool → PortPolicyMap → Bool × PortPolicyMap
  unfolding store
  view_set prefix_v4 prefix_v6 f port rate_max dry_run m =
      store port (set_field f rate_max (get_or (lookup port m.cache) (blank prefix_v4 prefix_v6)))
        dry_run m

  unfoldable pub view_delete : Field → ℕ → Bool → PortPolicyMap → Bool × PortPolicyMap
  unfolding store
  view_delete f port dry_run m = elim (lookup port m.cache) [
    | none ↦ delete port dry_run m
    | some current ↦ store port (set_field f 0 current) dry_run m
  ]
