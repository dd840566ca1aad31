-- ===== src/ConfigFile/Sections.antt =====
-- The sections of the configuration that fill tables: permanent ports, trusted addresses, tunnels,
-- the ACL, the limits by process and by service, and the lists of discovery. Each loop adds to a
-- table as it stands.
use auto_xdp.Base.{
  Dict, List, String, [], add, bool_key, insert, list_key, nat_key, none, option_key, pair_key,
  some, string_key, ℕ, ◌++◌, ◌∷◌,
}
use auto_xdp.Config.{AclRule, Float, Limits}
use auto_xdp.ConfigFile.{
  Load, Python, Toml, as_int, beyond, cidr_of, empty_array, empty_table, get, get_entry, int_limit,
  loaded, normalize_cidr, raises, table, text, ◌>>=◌,
}
use auto_xdp.ConfigFile.Tables.{Tables, items_of, iterate, required}

module _ {F : Float} (python : Python F) where
  add_ports : List (Toml F.Val) → Dict ℕ String → Load (Dict ℕ String)
  add_ports [] ports = loaded ports
  add_ports (p ∷ ps) ports = do
    port ← int_limit (as_int python p)
    add_ports ps (insert port "config" ports)

  -- `for p in section.get(name, []): ports[int(p)] = "config"`
  unfoldable pub permanent : String → Toml F.Val → Dict ℕ String → Load (Dict ℕ String)
  unfolding add_ports
  permanent name section ports = do
    value ← get name section empty_array
    ps ← iterate value
    add_ports ps ports

  unfoldable pub ports_section : Toml F.Val → Tables → Load Tables
  ports_section cfg t = do
    perm ← get "permanent_ports" cfg empty_table
    tcp ← permanent "tcp" perm t.tcp_permanent
    udp ← permanent "udp" perm t.udp_permanent
    sctp ← permanent "sctp" perm t.sctp_permanent
    loaded (record t { tcp_permanent = tcp; udp_permanent = udp; sctp_permanent = sctp })

  add_trusted : List (String × Toml F.Val) → Dict String String → Load (Dict String String)
  add_trusted [] ips = loaded ips
  add_trusted ((cidr, label) ∷ entries) ips = do
    net ← normalize_cidr python cidr
    add_trusted entries (insert net (python.str_of label) ips)

  unfoldable pub trusted_section : Toml F.Val → Tables → Load Tables
  unfolding add_trusted
  trusted_section cfg t = do
    section ← get "trusted_ips" cfg empty_table
    entries ← items_of section
    ips ← add_trusted entries t.trusted_src_ips
    loaded (record t { trusted_src_ips = ips })

  -- an endpoint that is no address is left out
  add_endpoints : List (Toml F.Val) → List String → List String
  add_endpoints [] endpoints = endpoints
  add_endpoints (ep ∷ eps) endpoints = elim (python.ipv4_address (python.str_of ep)) [
    | none ↦ add_endpoints eps endpoints
    | some ip ↦ add_endpoints eps (endpoints ++ (ip ∷ []))
  ]

  unfoldable pub tunnel_section : Toml F.Val → Tables → Load Tables
  unfolding add_endpoints
  tunnel_section cfg t = do
    section ← get "tunnel" cfg empty_table
    value ← get "sit4_endpoints" section empty_array
    eps ← iterate value
    loaded (record t { sit4_endpoints = add_endpoints eps t.sit4_endpoints })

  int_list : List (Toml F.Val) → Load (List ℕ)
  int_list [] = loaded []
  int_list (p ∷ ps) = do
    port ← int_limit (as_int python p)
    ports ← int_list ps
    loaded (port ∷ ports)

  -- the records keep a protocol as a text
  abbrev proto_of : Toml F.Val → Load String
  proto_of (text s) = loaded s
  proto_of value = beyond

  unfoldable pub acl_rule_of : Toml F.Val → Load AclRule
  unfolding int_list
  acl_rule_of (table rule) = do
    proto_value ← required "proto" rule
    proto ← proto_of proto_value
    cidr_value ← required "cidr" rule
    cidr ← cidr_of python cidr_value
    ps ← iterate (get_entry "ports" rule empty_array)
    ports ← int_list ps
    loaded (record { proto = proto; cidr = cidr; ports = ports })
  acl_rule_of value = raises

  add_rules : List (Toml F.Val) → List AclRule → Load (List AclRule)
  add_rules [] rules = loaded rules
  add_rules (r ∷ rs) rules = do rule ← acl_rule_of r; add_rules rs (rules ++ (rule ∷ []))

  unfoldable pub acl_section : Toml F.Val → Tables → Load Tables
  unfolding add_rules
  acl_section cfg t = do
    value ← get "acl" cfg empty_array
    rs ← iterate value
    rules ← add_rules rs t.acl_rules
    loaded (record t { acl_rules = rules })

  int_items : List (String × Toml F.Val) → Load (Dict String ℕ)
  int_items [] = loaded []
  int_items ((k, v) ∷ entries) = do
    limit ← int_limit (as_int python v)
    rest ← int_items entries
    loaded ((k, limit) ∷ rest)

  insert_all : Dict String ℕ → Dict String ℕ → Dict String ℕ
  insert_all [] d = d
  insert_all ((k, v) ∷ e) d = insert_all e (insert k v d)

  -- `limits.update({k: int(v) for k, v in rl.get(name, {}).items()})`
  unfoldable pub update_limits : String → Toml F.Val → Dict String ℕ → Load (Dict String ℕ)
  unfolding int_items insert_all
  update_limits name rl limits = do
    value ← get name rl empty_table
    entries ← items_of value
    more ← int_items entries
    loaded (insert_all more limits)

  -- the two tables of one limit
  unfoldable pub limits_of : String → String → Toml F.Val → Limits → Load Limits
  limits_of by_proc by_service rl l = do
    procs ← update_limits by_proc rl l.by_proc
    services ← update_limits by_service rl l.by_service
    loaded (record { by_proc = procs; by_service = services })

  unfoldable pub limits_section : Toml F.Val → Tables → Load Tables
  limits_section rl t = do
    syn ← limits_of "syn_by_proc" "syn_by_service" rl t.syn_rate
    syn_agg ← limits_of "syn_agg_by_proc" "syn_agg_by_service" rl t.syn_agg_rate
    conn ← limits_of "tcp_conn_by_proc" "tcp_conn_by_service" rl t.tcp_conn
    prefix ← limits_of "tcp_conn_prefix_by_proc" "tcp_conn_prefix_by_service" rl t.tcp_conn_prefix
    port ← limits_of "tcp_conn_port_by_proc" "tcp_conn_port_by_service" rl t.tcp_conn_port
    udp ← limits_of "udp_by_proc" "udp_by_service" rl t.udp_rate
    bytes ← limits_of "udp_agg_bytes_by_proc" "udp_agg_bytes_by_service" rl t.udp_agg_bytes
    sizes ← limits_of "map_entries_by_proc" "map_entries_by_service" rl t.rate_map_entries
    loaded (record t {
      syn_rate = syn;
      syn_agg_rate = syn_agg;
      tcp_conn = conn;
      tcp_conn_prefix = prefix;
      tcp_conn_port = port;
      udp_rate = udp;
      udp_agg_bytes = bytes;
      rate_map_entries = sizes;
    })

  add_cidrs : List (Toml F.Val) → List String → Load (List String)
  add_cidrs [] cidrs = loaded cidrs
  add_cidrs (c ∷ cs) cidrs = do cidr ← cidr_of python c; add_cidrs cs (cidrs ++ (cidr ∷ []))

  add_excluded : List (Toml F.Val) → List ℕ → Load (List ℕ)
  add_excluded [] ports = loaded ports
  add_excluded (p ∷ ps) ports = do
    port ← int_limit (as_int python p)
    add_excluded ps (add port ports)

  unfoldable pub discovery_section : Toml F.Val → Tables → Load Tables
  unfolding add_cidrs add_excluded
  discovery_section discovery t = do
    cidr_value ← get "exclude_bind_cidrs" discovery empty_array
    cs ← iterate cidr_value
    cidrs ← add_cidrs cs t.exclude_bind_cidrs
    port_value ← get "exclude_ports" discovery empty_array
    ps ← iterate port_value
    ports ← add_excluded ps t.exclude_ports
    loaded (record t { exclude_bind_cidrs = cidrs; exclude_ports = ports })
