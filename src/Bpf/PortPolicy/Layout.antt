-- ===== src/Bpf/PortPolicy/Layout.antt =====
-- The record of a UDP port as the kernel reads it, `struct udp_port_policy_cfg` of
-- bpf/include/keys.h, where the source prefixes are the words 2 and 3.
use auto_xdp.Base.{
  bool_key, list_key, lookup, nat_key, option_key, pair_key, some, string_key, ℕ, ◌≡◌,
}
use auto_xdp.Bpf.Kernel.{KernelMap}
use auto_xdp.Bpf.PortPolicy.{
  Field, Fields, PortPolicyMap, agg_rate_field, conn_field, conn_port_field, conn_prefix_field,
  rate_field,
}

unfoldable pub udp_source_prefix_v4 : Fields → ℕ
udp_source_prefix_v4 r = r.conn_max

unfoldable pub udp_source_prefix_v6 : Fields → ℕ
udp_source_prefix_v6 r = r.prefix_v4

-- the two views that the backend opens over the UDP policy map
abbrev pub IsUdpField : Field → Type 0
IsUdpField rate_field = Unit {0}
IsUdpField agg_rate_field = Unit {0}
IsUdpField conn_field = ⊥
IsUdpField conn_prefix_field = ⊥
IsUdpField conn_port_field = ⊥

module _ (kernel : KernelMap ℕ Fields) where
  -- in every record the kernel's UDP code finds the IPv4 source prefix 0
  abbrev pub HasNoPrefix : PortPolicyMap kernel → Type 0
  HasNoPrefix m = (p : ℕ) (r : Fields) → lookup p m.cache ≡ some r → udp_source_prefix_v4 r ≡ 0
