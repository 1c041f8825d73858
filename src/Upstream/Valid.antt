-- ===== src/Upstream/Valid.antt =====
-- What a parsed specification promises (webgui/internal/upstream/parse.go).
use resolix.Common.{
  ℕ, ◌*◌, ◌≤◌, ◌≡◌, ◌≢◌, ◌⊎◌, inl, inr, refl, ap, Bool, true, false, not, ◌||◌, Option, none, some,
  [], ◌==◌, ==_iff, nat_comparable, list_comparable, if◌then◌else◌, if_intro, Text, bytes,
  trim_space, arith,
}
use resolix.Upstream.Spec.{
  unsupported_options, url_spec, millisecond, second, Spec, Parsed, ok, err, SpecPackages,
  has_scheme, in_range, or_zero, or_default, checked, apply_resolver_transport, apply_weight,
  apply_resolver_options, parse_explicit_spec, plain_spec, plain_at, parse,
}

or_default-ne : (default s : Text) → default ≢ [] → or_default default s ≢ []
or_default-ne default s d =
    if_intro (λ r. r ≢ []) (s == []) (λ _. d) (λ e h. ground (arith, e, h, ==_iff s []))

range_or_zero :
    (least most : ℕ) (o : Option ℕ)
    → in_range least most o ≡ true
    → (least ≤ or_zero o) × (or_zero o ≤ most)
range_or_zero least most none h = cc
range_or_zero least most (some n) h = (ground (arith, h), ground (arith, h))

abbrev pub IsKnown : Text → Type 0
IsKnown s = (s ≡ bytes "udp") ⊎ ((s ≡ bytes "tcp") ⊎ ((s ≡ bytes "tls") ⊎ (s ≡ bytes "https")))

-- The schemes without a path.
abbrev IsPlain : Text → Type 0
IsPlain s = (s ≡ bytes "udp") ⊎ ((s ≡ bytes "tcp") ⊎ (s ≡ bytes "tls"))

IsPlain-IsKnown : (s : Text) → IsPlain s → IsKnown s
IsPlain-IsKnown s (inl e) = inl e
IsPlain-IsKnown s (inr (inl e)) = inr (inl e)
IsPlain-IsKnown s (inr (inr e)) = inr (inr (inl e))

plain_https : (s : Text) → IsPlain s → s ≢ bytes "https"
plain_https s (inl e) h = cc
plain_https s (inr (inl e)) h = cc
plain_https s (inr (inr e)) h = cc

or_cases : (a b : Bool) → (a || b) ≡ true → (a ≡ true) ⊎ (b ≡ true)
or_cases true b e = inl refl
or_cases false b e = inr e

udp_or_tcp : (s : Text) → (s == bytes "udp" || s == bytes "tcp") ≡ true → IsPlain s
udp_or_tcp s e = elim (or_cases (s == bytes "udp") (s == bytes "tcp") e) [
  | inl h ↦ inl ((==_iff s (bytes "udp")).0 h)
  | inr h ↦ inr (inl ((==_iff s (bytes "tcp")).0 h))
]

module _ (packages : SpecPackages) where
  open packages use {
    Values, parse_url, get, del, is_empty, encode, is_ip, split_host_port, join_host_port, atoi,
    parse_duration,
  }

  -- A specification with its defaults filled in, from this text.
  pub record IsSpec (raw : Text) (s : Spec) : Type 0 where
    pub kept : s.raw ≡ raw
    pub scheme_known : IsKnown s.scheme
    pub host_given : s.host ≢ []
    pub port_valid : in_range 1 65535 (atoi s.port) ≡ true
    pub path_given : s.scheme ≡ bytes "https" → s.path ≢ []
    pub timeout_valid :
        (s.timeout ≡ 0) ⊎ ((250 * millisecond ≤ s.timeout) × (s.timeout ≤ 60 * second))
    pub weight_valid : s.weight ≤ 100
    pub literal : has_scheme raw ≡ false → (is_ip s.host ≡ true) × (s.scheme ≡ bytes "udp")

  abbrev pub Promises : Text → Parsed → Type 0
  Promises raw (ok s) = IsSpec raw s
  Promises raw (err e) = Unit

  -- The same before the transport is known.
  record IsPartial (raw : Text) (s : Spec) : Type 0 where
    kept : s.raw ≡ raw
    schemed : has_scheme raw ≡ true
    timeout_valid : (s.timeout ≡ 0) ⊎ ((250 * millisecond ≤ s.timeout) × (s.timeout ≤ 60 * second))
    weight_valid : s.weight ≤ 100

  checked-Promises :
      (raw : Text) (s : Spec)
      → IsPartial raw s
      → IsKnown s.scheme
      → (s.scheme ≡ bytes "https" → s.path ≢ [])
      → Promises raw (checked packages raw s)
  checked-Promises raw s v k p =
      if_intro (Promises raw) (s.host == []) (λ _. tt)
        (λ h.
          if_intro (Promises raw) (in_range 1 65535 (atoi s.port))
            (λ r. record {
              kept = v.kept;
              scheme_known = k;
              host_given = λ e. ground (arith, h, e, ==_iff s.host []);
              port_valid = r;
              path_given = p;
              timeout_valid = v.timeout_valid;
              weight_valid = v.weight_valid;
              literal = λ n. cc;
            })
            (λ _. tt))

  again :
      (raw : Text) (s : Spec) (port path query : Text)
      → IsPartial raw s
      → IsPartial raw (record s { port = port; path = path; query = query })
  again raw s port path query v = record {
    kept = v.kept;
    schemed = v.schemed;
    timeout_valid = v.timeout_valid;
    weight_valid = v.weight_valid;
  }

  plain-Promises :
      (raw port : Text) (options : Values) (s : Spec)
      → IsPartial raw s
      → IsPlain s.scheme
      → Promises raw (
          if is_empty options
          then checked packages raw (record s { port = or_default port s.port })
          else err (unsupported_options raw))
  plain-Promises raw port options s v p =
      if_intro (Promises raw) (is_empty options)
        (λ _.
          checked-Promises raw _ (again raw s _ _ _ v) (IsPlain-IsKnown s.scheme p)
            (λ h. absurd (plain_https s.scheme p h)))
        (λ _. tt)

  transport-Promises :
      (raw path : Text) (options : Values) (s : Spec)
      → IsPartial raw s
      → Promises raw (apply_resolver_transport packages raw path options s)
  transport-Promises raw path options s v =
      if_intro (Promises raw) (s.scheme == bytes "udp" || s.scheme == bytes "tcp")
        (λ e. plain-Promises raw (bytes "53") options s v (udp_or_tcp s.scheme e))
        (λ _.
          if_intro (Promises raw) (s.scheme == bytes "tls")
            (λ e.
              plain-Promises raw (bytes "853") options s v
                (inr (inr ((==_iff s.scheme (bytes "tls")).0 e))))
            (λ _.
              if_intro (Promises raw) (s.scheme == bytes "https")
                (λ e.
                  checked-Promises raw _ (again raw s _ _ _ v)
                    (inr (inr (inr ((==_iff s.scheme (bytes "https")).0 e))))
                    (λ _. or_default-ne (bytes "/dns-query") path (λ e. cc)))
                (λ _. tt)))

  weight-Promises :
      (raw path : Text) (options : Values) (s : Spec)
      → IsPartial raw s
      → Promises raw (apply_weight packages raw path options s)
  weight-Promises raw path options s v =
      let value = get (bytes "weight") options in
      if_intro (Promises raw) (value == []) (λ _. transport-Promises raw path options s v)
        (λ _.
          if_intro (Promises raw) (in_range 1 100 (atoi value))
            (λ r.
              transport-Promises raw path (del (bytes "weight") options)
                (record s { weight = or_zero (atoi value) })
                (record {
                  kept = v.kept;
                  schemed = v.schemed;
                  timeout_valid = v.timeout_valid;
                  weight_valid = (range_or_zero 1 100 (atoi value) r).1;
                }))
            (λ _. tt))

  options-Promises :
      (raw path : Text) (options : Values) (s : Spec)
      → IsPartial raw s
      → Promises raw (apply_resolver_options packages raw path options s)
  options-Promises raw path options s v =
      let value = get (bytes "timeout") options in
      if_intro (Promises raw) (value == []) (λ _. weight-Promises raw path options s v)
        (λ _.
          if_intro (Promises raw)
            (in_range (250 * millisecond) (60 * second) (parse_duration value))
            (λ r.
              weight-Promises raw path (del (bytes "timeout") options)
                (record s { timeout = or_zero (parse_duration value) })
                (record {
                  kept = v.kept;
                  schemed = v.schemed;
                  timeout_valid =
                      inr
                        (range_or_zero (250 * millisecond) (60 * second) (parse_duration value) r);
                  weight_valid = v.weight_valid;
                }))
            (λ _. tt))

  explicit-Promises :
      (raw : Text) (url : Option (Text × Text × Text × Text × Values))
      → has_scheme raw ≡ true
      → Promises raw (parse_explicit_spec packages raw url)
  explicit-Promises raw none h = tt
  explicit-Promises raw (some (scheme, hostname, port, path, options)) h =
      options-Promises raw path options (url_spec raw scheme hostname port)
        (record { kept = refl; schemed = h; timeout_valid = inl refl; weight_valid = omega arith })

  module _ (not_empty : is_ip [] ≡ false) (default_port : atoi (bytes "53") ≡ some 53) where
    literal-IsSpec :
        (raw host port : Text)
        → is_ip host ≡ true
        → in_range 1 65535 (atoi port) ≡ true
        → IsSpec raw (plain_spec packages raw host port)
    literal-IsSpec raw host port i p = record {
      kept = refl;
      scheme_known = inl refl;
      host_given = λ e. ground (arith, ap is_ip e, i, not_empty);
      port_valid = p;
      path_given = λ e. cc;
      timeout_valid = inl refl;
      weight_valid = omega arith;
      literal = λ _. (i, refl);
    }

    plain_at-Promises :
        (raw normalized : Text) (split : Option (Text × Text))
        → Promises raw (plain_at packages raw normalized split)
    plain_at-Promises raw normalized none =
        if_intro (Promises raw) (is_ip normalized)
          (λ i. literal-IsSpec raw normalized (bytes "53") i (rw default_port refl)) (λ _. tt)
    plain_at-Promises raw normalized (some (host, port)) =
        if_intro (Promises raw) (not (is_ip host)) (λ _. tt)
          (λ i.
            if_intro (Promises raw) (in_range 1 65535 (atoi (or_default (bytes "53") port)))
              (λ p. literal-IsSpec raw host (or_default (bytes "53") port) (ground (arith, i)) p)
              (λ _. tt))

    -- When package net does not take the empty text for an address and strconv reads "53": a
    -- specification that Parse accepts keeps its trimmed text and has a known scheme, a host, a
    -- port of 1 to 65535, for https a path, a timeout of 0 or of 250 ms to 60 s, and a weight of
    -- at most 100; without a scheme in the text it is an address literal for UDP.
    pub parse-Promises : (text : Text) → Promises (trim_space text) (parse packages text)
    unfolding parse
    parse-Promises text =
        let raw = trim_space text in
        if_intro (Promises raw) (raw == []) (λ _. tt)
          (λ _.
            if_intro (Promises raw) (has_scheme raw) (λ h. explicit-Promises raw (parse_url raw) h)
              (λ _. plain_at-Promises raw _ _))
