-- ===== src/ConfigFile/Tables.antt =====
-- The tables of auto_xdp/config.py that a reload clears first, and what a loop over a value visits.
-- the globals that `_apply_toml_config_in_place` clears first
use auto_xdp.Base.{
  Dict, List, String, [], bool_key, if◌then◌else◌, list_key, map, nat_key, option_key, pair_key,
  string_key, ℕ, ◌==◌, ◌∷◌,
}
use auto_xdp.Config.{AclRule, Limits}
use auto_xdp.ConfigFile.{
  Items, Load, Table, Toml, array, entry, item, loaded, no_entry, no_item, raises, table, text,
}

pub record Tables : Type 0 where
  pub tcp_permanent : Dict ℕ String
  pub udp_permanent : Dict ℕ String
  pub sctp_permanent : Dict ℕ String
  pub trusted_src_ips : Dict String String
  pub acl_rules : List AclRule
  pub sit4_endpoints : List String
  pub syn_rate : Limits
  pub syn_agg_rate : Limits
  pub tcp_conn : Limits
  pub tcp_conn_prefix : Limits
  pub tcp_conn_port : Limits
  pub udp_rate : Limits
  pub udp_agg_bytes : Limits
  pub rate_map_entries : Limits
  pub exclude_bind_cidrs : List String
  pub exclude_ports : List ℕ

abbrev clear_limits : Limits → Limits
clear_limits l = record l { by_proc = []; by_service = [] }

unfoldable pub clear : Tables → Tables
clear t = record t {
  tcp_permanent = [];
  udp_permanent = [];
  sctp_permanent = [];
  trusted_src_ips = [];
  acl_rules = [];
  sit4_endpoints = [];
  syn_rate = clear_limits t.syn_rate;
  syn_agg_rate = clear_limits t.syn_agg_rate;
  tcp_conn = clear_limits t.tcp_conn;
  tcp_conn_prefix = clear_limits t.tcp_conn_prefix;
  tcp_conn_port = clear_limits t.tcp_conn_port;
  udp_rate = clear_limits t.udp_rate;
  udp_agg_bytes = clear_limits t.udp_agg_bytes;
  rate_map_entries = clear_limits t.rate_map_entries;
  exclude_bind_cidrs = [];
  exclude_ports = [];
}

module _ {V : Type 0} where
  unfoldable pub items_list : Items V → List (Toml V)
  items_list no_item = []
  items_list (item x xs) = x ∷ items_list xs

  chars_list : String → List (Toml V)
  chars_list String.[] = []
  chars_list (String.◌∷◌ c s) = text (String.◌∷◌ c String.[]) ∷ chars_list s

  table_items : Table V → List (String × Toml V)
  table_items no_entry = []
  table_items (entry key x t) = (key, x) ∷ table_items t

  -- `for x in value`: a text gives its characters, a table its keys
  unfoldable pub iterate : Toml V → Load (List (Toml V))
  unfolding items_list chars_list table_items
  iterate (array xs) = loaded (items_list xs)
  iterate (text s) = loaded (chars_list s)
  iterate (table t) = loaded (map (λ e. text e.0) (table_items t))
  iterate value = raises

  -- `value.items()`
  unfoldable pub items_of : Toml V → Load (List (String × Toml V))
  unfolding table_items
  items_of (table t) = loaded (table_items t)
  items_of value = raises

  -- `rule[key]`, which raises where the key is missing
  unfoldable pub required : String → Table V → Load (Toml V)
  required key no_entry = raises
  required key (entry name x t) =
      let rest = required key t in if name == key then loaded x else rest
