-- ===== src/Bpf/AclMaps.antt =====
-- `BpfAclMaps` of auto_xdp/bpf/maps.py: the four maps of rules, by protocol and address family.
use auto_xdp.Bpf.AclMap
use auto_xdp.Base.{
  Bool, Dict, List, String, [], bool_key, insert, list_key, nat_key, option_key, pair_key,
  string_key, ℕ, ◌∷◌,
}
use auto_xdp.Bpf.AclMap.{AclMap, AclMaps, AclSlot, map_for}
use auto_xdp.Bpf.Kernel.{KernelMap}
use auto_xdp.State.{AclRules}

-- `result[(proto, cidr)] = ports` for each entry of one map
unfoldable pub collect_rules : String → Dict String (List ℕ) → AclRules → AclRules
collect_rules proto [] result = result
collect_rules proto ((cidr, ports) ∷ rest) result =
    collect_rules proto rest (insert (proto, cidr) ports result)

module _ (kernel : KernelMap String (List ℕ)) (normalize : String → String) where
  abbrev pub acl_map : AclSlot → AclMaps kernel → AclMap.AclMap kernel
  acl_map AclMap.tcp4 t = t.tcp4
  acl_map AclMap.tcp6 t = t.tcp6
  acl_map AclMap.udp4 t = t.udp4
  acl_map AclMap.udp6 t = t.udp6

  abbrev pub put_acl_map : AclSlot → AclMap.AclMap kernel → AclMaps kernel → AclMaps kernel
  put_acl_map AclMap.tcp4 m t = record t { tcp4 = m }
  put_acl_map AclMap.tcp6 m t = record t { tcp6 = m }
  put_acl_map AclMap.udp4 m t = record t { udp4 = m }
  put_acl_map AclMap.udp6 m t = record t { udp6 = m }

  unfoldable pub set_rule : String → String → List ℕ → Bool → AclMaps kernel → Bool × AclMaps kernel
  set_rule proto cidr ports dry_run t =
      let slot = map_for proto cidr in
      let (fine, m) = AclMap.set kernel normalize cidr ports dry_run (acl_map slot t) in
      (fine, put_acl_map slot m t)

  unfoldable pub delete_rule : String → String → Bool → AclMaps kernel → Bool × AclMaps kernel
  delete_rule proto cidr dry_run t =
      let slot = map_for proto cidr in
      let (fine, m) = AclMap.delete kernel normalize cidr dry_run (acl_map slot t) in
      (fine, put_acl_map slot m t)

  unfoldable pub active_rules : AclMaps kernel → AclRules
  active_rules t = collect_rules "udp" t.udp6.cache (
      collect_rules "udp" t.udp4.cache
        (collect_rules "tcp" t.tcp6.cache (collect_rules "tcp" t.tcp4.cache [])))
