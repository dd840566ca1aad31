-- ===== src/Policy/Tiers.antt =====
-- Which of the operator's values and of the defaults decides a port's limit.
use auto_xdp.Base.{
  ==_iff, Bool-cases, Dict, Option, Option-cases, String, arith, bool_key, false, get_or,
  if◌then◌else◌, inl, inr, list_key, lookup, nat_key, none, option_key, pair_key, refl, some,
  string_key, true, ℕ, ◌&&◌, ◌*◌, ◌<◌, ◌↔◌, ◌≡◌, ◌≤◌, ◌⊎◌,
}
use auto_xdp.Config.{Config, Float, Limits, Services, service_name}
use auto_xdp.Policy.{
  explicit_lookup, has, is_sensitive, port_rate_limit, rate_map_entries, resolve_service_limit,
  syn_aggregate_rate_limit, tcp_conn_limit, tcp_conn_port_limit, tcp_conn_prefix_limit, truthy,
  udp_aggregate_byte_limit, udp_port_rate_limit, within,
}

-- a positive rate at or below the threshold, written for a name that is not empty
abbrev pub MarksSensitive : ℕ → Dict String ℕ → String → Type 0
MarksSensitive threshold table name =
    (rate : ℕ) × (truthy name ≡ true)
    × (lookup name table ≡ some rate)
    × (0 < rate)
    × (rate ≤ threshold)

within_cases :
    (threshold : ℕ) (found : Option ℕ)
    → within threshold found ≡ true
    → (rate : ℕ) × (found ≡ some rate) × (0 < rate) × (rate ≤ threshold)
within_cases threshold none h = absurd (cc)
within_cases threshold (some rate) h = (rate, refl, ground arith, ground arith)

marks :
    (threshold : ℕ) (table : Dict String ℕ) (name : String)
    → (truthy name && within threshold (lookup name table)) ≡ true
    → MarksSensitive threshold table name
marks threshold table name h =
    let (rate, found, pos, low) =
      within_cases threshold (lookup name table) (ground (arith, ==_iff name "")) in
    (rate, ground (arith, ==_iff name ""), found, pos, low)

marks_back :
    (threshold : ℕ) (table : Dict String ℕ) (name : String)
    → MarksSensitive threshold table name
    → (truthy name && within threshold (lookup name table)) ≡ true
marks_back threshold table name (rate, named, found, pos, low) = rw (named, found) (ground arith)

-- the limits of a TCP port, each with its table of the operator's values
pub data LimitKind : Type 0 where
  of_syn : LimitKind
  of_syn_agg : LimitKind
  of_conn : LimitKind
  of_conn_prefix : LimitKind
  of_conn_port : LimitKind
  of_map_entries : LimitKind

abbrev pub limits_of : {F : Float} → LimitKind → Config F → Limits
limits_of of_syn cfg = cfg.syn_rate
limits_of of_syn_agg cfg = cfg.syn_agg_rate
limits_of of_conn cfg = cfg.tcp_conn
limits_of of_conn_prefix cfg = cfg.tcp_conn_prefix
limits_of of_conn_port cfg = cfg.tcp_conn_port
limits_of of_map_entries cfg = cfg.rate_map_entries

module _ (services : Services) {F : Float} (cfg : Config F) (port : ℕ) (proc : String) where
  -- A port is sensitive exactly when its process or its TCP service, under a name that is not
  -- empty, has a SYN rate above zero and at most the threshold. A rate of zero does not make it so.
  pub is_sensitive_iff : (is_sensitive services cfg port proc ≡ true) ↔ (
      MarksSensitive cfg.xdp_sensitive_port_threshold cfg.syn_rate.by_proc proc
      ⊎ MarksSensitive cfg.xdp_sensitive_port_threshold cfg.syn_rate.by_service
          (service_name services port "tcp"))
  unfolding is_sensitive
  is_sensitive_iff = (forth, back)
    where
      t : ℕ
      t = cfg.xdp_sensitive_port_threshold

      svc : String
      svc = service_name services port "tcp"

      forth :
          is_sensitive services cfg port proc ≡ true
          → MarksSensitive t cfg.syn_rate.by_proc proc
            ⊎ MarksSensitive t cfg.syn_rate.by_service svc
      forth h = elim (Bool-cases (truthy proc && within t (lookup proc cfg.syn_rate.by_proc))) [
        | inl p ↦ inl (marks t cfg.syn_rate.by_proc proc p)
        | inr p ↦ inr (marks t cfg.syn_rate.by_service svc (rw p at h))
      ]

      back :
          MarksSensitive t cfg.syn_rate.by_proc proc ⊎ MarksSensitive t cfg.syn_rate.by_service svc
          → is_sensitive services cfg port proc ≡ true
      back (inl m) = rw (marks_back t cfg.syn_rate.by_proc proc m)
      back (inr m) = ground (arith, marks_back t cfg.syn_rate.by_service svc m)

  explicit_lookup_proc :
      (limits : Limits) (v : ℕ)
      → truthy proc ≡ true
      → lookup proc limits.by_proc ≡ some v
      → explicit_lookup services port proc limits ≡ some v
  unfolding explicit_lookup
  explicit_lookup_proc limits v named found = rw (named, found)

  -- the resolver of a kind of limit
  abbrev pub resolved_limit : LimitKind → ℕ
  resolved_limit of_syn = port_rate_limit services cfg port proc
  resolved_limit of_syn_agg = syn_aggregate_rate_limit services cfg port proc
  resolved_limit of_conn = tcp_conn_limit services cfg port proc
  resolved_limit of_conn_prefix = tcp_conn_prefix_limit services cfg port proc
  resolved_limit of_conn_port = tcp_conn_port_limit services cfg port proc
  resolved_limit of_map_entries = rate_map_entries services cfg port proc

  -- What the operator wrote for the owning process decides each TCP limit and the map capacity,
  -- zero included, whatever the service tables, the sensitivity and the defaults are.
  pub proc_override :
      (kind : LimitKind) (v : ℕ)
      → truthy proc ≡ true
      → lookup proc (limits_of kind cfg).by_proc ≡ some v
      → resolved_limit kind ≡ v
  unfolding port_rate_limit syn_aggregate_rate_limit tcp_conn_limit tcp_conn_prefix_limit
      tcp_conn_port_limit rate_map_entries
  proc_override of_syn v named written = rw (named, written)
  proc_override of_syn_agg v named written =
      rw (explicit_lookup_proc cfg.syn_agg_rate v named written)
  proc_override of_conn v named written = rw (explicit_lookup_proc cfg.tcp_conn v named written)
  proc_override of_conn_prefix v named written =
      rw (explicit_lookup_proc cfg.tcp_conn_prefix v named written)
  proc_override of_conn_port v named written =
      rw (explicit_lookup_proc cfg.tcp_conn_port v named written)
  proc_override of_map_entries v named written =
      rw (explicit_lookup_proc cfg.rate_map_entries v named written)

  -- a port that its process or its TCP service marks
  abbrev pub IsMarked : Type 0
  IsMarked =
      MarksSensitive cfg.xdp_sensitive_port_threshold cfg.syn_rate.by_proc proc
      ⊎ MarksSensitive cfg.xdp_sensitive_port_threshold cfg.syn_rate.by_service
          (service_name services port "tcp")

  explicit_lookup_missing :
      (truthy proc && has proc cfg.syn_rate.by_proc) ≡ false
      → let svc = service_name services port "tcp" in
        explicit_lookup services port proc cfg.syn_rate
        ≡ (if truthy svc then lookup svc cfg.syn_rate.by_service else none)
  unfolding explicit_lookup
  explicit_lookup_missing missing =
      elim (Option-cases (lookup (service_name services port "tcp") cfg.syn_rate.by_service)) [
        | inl absent ↦ ground (arith, missing, absent)
        | inr (v, found) ↦ ground (arith, missing, found)
      ]

  -- Where the process has no SYN rate of its own: a port whose process or TCP service has a SYN
  -- rate above zero and at most the threshold gets the strict default, and any other port the rate
  -- that is written for its TCP service, zero included, or the standard default if none is.
  pub port_rate_limit_tiers :
      (truthy proc && has proc cfg.syn_rate.by_proc) ≡ false
      → let svc = service_name services port "tcp" in
        (IsMarked → port_rate_limit services cfg port proc ≡ cfg.xdp_default_tcp_syn_rate_strict)
        × (¬ IsMarked
            → port_rate_limit services cfg port proc
              ≡ get_or
                  (if truthy svc then lookup svc cfg.syn_rate.by_service else none)
                  cfg.xdp_default_tcp_syn_rate)
  unfolding port_rate_limit
  port_rate_limit_tiers missing = (
    λ marked. rw (missing, is_sensitive_iff.1 marked) refl,
    λ other. elim (Bool-cases (is_sensitive services cfg port proc)) [
      | inl strict ↦ absurd (other (is_sensitive_iff.0 strict))
      | inr lenient ↦ rw (missing, lenient, explicit_lookup_missing missing) refl
    ],
  )

  -- A sensitive port gets the strict default in each TCP limit that has no entry of its own, and
  -- any other port the standard default.
  pub sensitive_defaults :
      (truthy proc && has proc cfg.syn_rate.by_proc) ≡ false
      → explicit_lookup services port proc cfg.syn_rate ≡ none
      → explicit_lookup services port proc cfg.syn_agg_rate ≡ none
      → explicit_lookup services port proc cfg.tcp_conn ≡ none
      → explicit_lookup services port proc cfg.tcp_conn_prefix ≡ none
      → explicit_lookup services port proc cfg.tcp_conn_port ≡ none
      → let pick = λ (strict standard : ℕ).
        if is_sensitive services cfg port proc then strict else standard in
        (port_rate_limit services cfg port proc
          ≡ pick cfg.xdp_default_tcp_syn_rate_strict cfg.xdp_default_tcp_syn_rate)
        × (syn_aggregate_rate_limit services cfg port proc
            ≡ pick cfg.xdp_default_tcp_syn_agg_rate_strict cfg.xdp_default_tcp_syn_agg_rate)
        × (tcp_conn_limit services cfg port proc
            ≡ pick cfg.xdp_default_tcp_established_per_src_strict
                cfg.xdp_default_tcp_established_per_src)
        × (tcp_conn_prefix_limit services cfg port proc
            ≡ pick cfg.xdp_default_tcp_established_per_prefix_strict
                cfg.xdp_default_tcp_established_per_prefix)
        × (tcp_conn_port_limit services cfg port proc
            ≡ pick cfg.xdp_default_tcp_established_per_port_strict
                cfg.xdp_default_tcp_established_per_port)
  unfolding port_rate_limit syn_aggregate_rate_limit tcp_conn_limit tcp_conn_prefix_limit
      tcp_conn_port_limit
  sensitive_defaults m a b c d e = (rw (m, a), rw b, rw c, rw d, rw e)

  -- The UDP byte limit is zero, which turns it off, exactly when neither a byte limit nor a packet
  -- rate is written for the port; otherwise it is the byte limit or 1200 bytes for each packet.
  pub udp_aggregate_byte_limit_cases :
      let bytes = resolve_service_limit services port "udp" proc cfg.udp_agg_bytes in
      let packets = udp_port_rate_limit services cfg port proc in
      let limit = udp_aggregate_byte_limit services cfg port proc in
      ((limit ≡ 0) ↔ ((bytes ≡ 0) × (packets ≡ 0))) × ((limit ≡ bytes) ⊎ (limit ≡ packets * 1200))
  unfolding udp_aggregate_byte_limit
  udp_aggregate_byte_limit_cases = ((λ h. ground arith, λ h. ground arith), ground arith)
