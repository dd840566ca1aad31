-- ===== src/Bpf/AclMap.antt =====
-- `BpfAclMap` and `BpfAclMaps` of auto_xdp/bpf/maps.py: the ports that each network may reach. The
-- kernel's value has room for 64 ports. A port is a number of 16 bits, and a network one that
-- ipaddress reads: the struct.error for a larger number and the ValueError for another text, which
-- end the round, are beyond this model.
pub mod Clamp
use auto_xdp.Base.{
  Bool, Dict, List, String, bool_key, erase, false, if◌then◌else◌, insert, list_key, nat_key,
  option_key, pair_key, string_key, take, true, ℕ, ◌==◌,
}
use auto_xdp.Bpf.Kernel.{Cached, KernelMap, Reply, done, enoent, fails, has_colon, other_errno}

-- `ACL_MAX_PORTS` of auto_xdp/config.py
abbrev pub acl_max_ports : ℕ
acl_max_ports = 64

module _ (kernel : KernelMap String (List ℕ)) where
  abbrev pub AclMap : Type 0
  AclMap = Cached kernel.State (Dict String (List ℕ))

  set_reply : String → List ℕ → AclMap → Reply (Unit {0}) × kernel.State → Bool × AclMap
  set_reply key ports m (done _, s) =
      (true, record { kernel = s; cache = insert key ports m.cache })
  set_reply key ports m (fails e, s) = (false, record m { kernel = s })

  delete_reply : String → AclMap → Reply (Unit {0}) × kernel.State → Bool × AclMap
  delete_reply key m (done _, s) = (true, record { kernel = s; cache = erase key m.cache })
  delete_reply key m (fails enoent, s) = (true, record { kernel = s; cache = erase key m.cache })
  delete_reply key m (fails (other_errno n), s) = (false, record m { kernel = s })

  module _ (normalize : String → String) where
    -- the kernel gets the first 64 ports, the cache all of them
    unfoldable pub set : String → List ℕ → Bool → AclMap → Bool × AclMap
    unfolding set_reply
    set cidr ports dry_run m =
        let key = normalize cidr in
        if dry_run
        then (true, m)
        else set_reply key ports m (kernel.update_elem key (take acl_max_ports ports) m.kernel)

    unfoldable pub delete : String → Bool → AclMap → Bool × AclMap
    unfolding delete_reply
    delete cidr dry_run m =
        let key = normalize cidr in
        if dry_run then (true, m) else delete_reply key m (kernel.delete_elem key m.kernel)

  pub record AclMaps : Type 0 where
    pub tcp4 : AclMap
    pub tcp6 : AclMap
    pub udp4 : AclMap
    pub udp6 : AclMap

-- `_map_for`: which of the four maps a rule belongs to
pub data AclSlot : Type 0 where
  tcp4 tcp6 udp4 udp6 : AclSlot

unfoldable pub map_for : String → String → AclSlot
map_for proto cidr =
    if proto == "tcp"
    then (if has_colon cidr then tcp6 else tcp4)
    else (if has_colon cidr then udp6 else udp4)
