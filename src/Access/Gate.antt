-- ===== src/Access/Gate.antt =====
-- Which queries are answered at all (webgui/internal/dnsserver/acl.go, and pipeline.go: the first
-- stages of Resolve, and ServeDNS; the lists are built in dnsserver.go, New, and replaced in
-- runtime.go, ApplySettings).
use resolix.Common.{
  ℕ, ◌+◌, Bool, true, not, ◌&&◌, Option, none, some, List, [], ◌∷◌, ◌++◌, ◌==◌, nat_comparable,
  list_comparable, if◌then◌else◌, Text, trim_space, length, ltb,
}
use resolix.Access.Clientnets.{
  ClientNet, parse_cidr_list, cidr_list_contains, is_internal_client_ip, client_key,
}
use resolix.Access.Limiter.{RateLimiter, new_rate_limiter, allow_at_rate}

-- What the gate reads of the settings. A rate that is not positive is 0.
pub record Limits : Type 0 where
  pub rate_limit_qps : ℕ
  pub internal_rate_limit_qps : ℕ
  pub rate_limit_ede : Bool
  pub ipv4_prefix : ℕ
  pub ipv6_prefix : ℕ

-- What the gate reads and writes of the server, over the type of networks.
pub record Gate (Network : Type 0) : Type 0 where
  pub limits : Limits
  pub allowed : List Network
  pub allowed_configured : Bool
  pub disallowed : List Network
  pub rate_limit_allowlist : List Network
  pub rate_limiter : Option RateLimiter
  pub acl_dropped : ℕ
  pub acl_allowlist_dropped : ℕ
  pub rate_limit_dropped : ℕ

-- The query goes on, or gets no answer, or a refusal with an extended error.
pub data Verdict : Type 0 where
  passes : Verdict
  drops : Verdict
  refuses : Verdict

module _ (cn : ClientNet) where
  open cn use {Network}

  -- What New does for the gate, from the texts of the configuration.
  abbrev pub new_gate : Limits → Text → Text → Text → Gate Network
  new_gate limits allowed disallowed rate_allowlist = record {
    limits = limits;
    allowed = parse_cidr_list cn allowed;
    allowed_configured = not (trim_space allowed == []);
    disallowed = parse_cidr_list cn disallowed;
    rate_limit_allowlist = parse_cidr_list cn rate_allowlist;
    rate_limiter = some (new_rate_limiter limits.rate_limit_qps);
    acl_dropped = 0;
    acl_allowlist_dropped = 0;
    rate_limit_dropped = 0;
  }

  abbrev pub join_spaces : List Text → Text
  join_spaces [] = []
  join_spaces (s ∷ []) = s
  join_spaces (s ∷ t ∷ ss) = s ++ 32 ∷ join_spaces (t ∷ ss)

  -- What ApplySettings does for the gate; the limiter and the counters stay.
  abbrev pub apply_gate_settings :
      Limits → List Text → List Text → List Text → Gate Network → Gate Network
  apply_gate_settings limits allowed disallowed rate_allowlist s = record s {
    limits = limits;
    allowed = parse_cidr_list cn (join_spaces allowed);
    allowed_configured = ltb 0 (length allowed);
    disallowed = parse_cidr_list cn (join_spaces disallowed);
    rate_limit_allowlist = parse_cidr_list cn (join_spaces rate_allowlist);
  }

  -- aclDrop
  abbrev pub acl_drop : Gate Network → Text → Bool
  acl_drop s ip = cidr_list_contains cn s.disallowed ip

  -- aclAllowlistDrop
  abbrev pub acl_allowlist_drop : Gate Network → Text → Bool
  acl_allowlist_drop s ip = s.allowed_configured && not (cidr_list_contains cn s.allowed ip)

  -- defaultACLDrop
  abbrev pub default_acl_drop : Gate Network → Text → Bool
  default_acl_drop s ip = not s.allowed_configured && not (is_internal_client_ip cn ip)

  abbrev pub rate_of : Gate Network → Text → ℕ
  rate_of s ip =
      if is_internal_client_ip cn ip
      then s.limits.internal_rate_limit_qps
      else s.limits.rate_limit_qps

  abbrev pub allow_limited :
      Gate Network → Text → ℕ → Option RateLimiter → Option RateLimiter × Bool
  allow_limited s ip now none = (none, true)
  allow_limited s ip now (some rl) =
      if cidr_list_contains cn s.rate_limit_allowlist ip
      then (some rl, true)
      else let (new, ok) =
          allow_at_rate rl (client_key cn s.limits.ipv4_prefix s.limits.ipv6_prefix ip)
            (rate_of s ip) now in
        (some new, ok)

  -- Whether the limiter admits a query at this time, and the limiter afterwards.
  abbrev pub take_token : Gate Network → Text → ℕ → Option RateLimiter × Bool
  take_token s ip now = allow_limited s ip now s.rate_limiter

  abbrev pub limited : Gate Network → Bool → Option RateLimiter × Bool → Gate Network × Verdict
  limited s edns (rl, ok) = if ok then (record s { rate_limiter = rl }, passes) else (
    record s { rate_limiter = rl; rate_limit_dropped = s.rate_limit_dropped + 1 },
    if s.limits.rate_limit_ede && edns then refuses else drops,
  )

  -- The stages 0a to 0c of Resolve.
  unfoldable pub admit : Gate Network → Text → Bool → ℕ → Gate Network × Verdict
  admit s ip edns now =
      if acl_drop s ip
      then (record s { acl_dropped = s.acl_dropped + 1 }, drops)
      else if acl_allowlist_drop s ip
      then (record s { acl_allowlist_dropped = s.acl_allowlist_dropped + 1 }, drops)
      else limited s edns (take_token s ip now)

  -- ServeDNS up to the first stages of Resolve.
  unfoldable pub serve_dns : Gate Network → Text → Bool → ℕ → Gate Network × Verdict
  unfolding admit
  serve_dns s ip edns now =
      if default_acl_drop s ip
      then (record s { acl_allowlist_dropped = s.acl_allowlist_dropped + 1 }, drops)
      else admit s ip edns now
