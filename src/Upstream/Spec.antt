-- ===== src/Upstream/Spec.antt =====
-- The specification of an upstream server (webgui/internal/upstream/parse.go).
use resolix.Common.{
  ℕ, ◌+◌, ◌*◌, Bool, false, not, ◌&&◌, ◌||◌, Option, none, some, List, [], ◌∷◌, ◌++◌, ltb, leb,
  ◌==◌, nat_comparable, list_comparable, if◌then◌else◌, Text, bytes, to_lower, trim_dot, trim_space,
  has_prefix,
}

abbrev pub millisecond : ℕ
millisecond = 1000000

abbrev pub second : ℕ
second = 1000000000

-- A timeout or a weight of 0 stands for the default.
pub record Spec : Type 0 where
  pub scheme : Text
  pub host : Text
  pub port : Text
  pub path : Text
  pub query : Text
  pub timeout : ℕ
  pub weight : ℕ
  pub raw : Text

pub data SpecError : Type 0 where
  empty_spec : SpecError
  invalid_url : Text → SpecError
  bad_timeout : Text → SpecError
  bad_weight : Text → SpecError
  unsupported_options : Text → SpecError
  unsupported_scheme : Text → SpecError
  missing_host : Text → SpecError
  bad_port : Text → SpecError
  not_literal : Text → SpecError

pub data Parsed : Type 0 where
  ok : Spec → Parsed
  err : SpecError → Parsed

-- What the code uses of packages net/url, net, strconv and time. Values are what u.Query()
-- returns; a number or a duration that is negative is none, which the code refuses alike.
pub record SpecPackages : Type 1 where
  pub Values : Type 0
  -- the scheme, the host name, the port, the path and the query of a URL
  pub parse_url : Text → Option (Text × Text × Text × Text × Values)
  -- Get, Del, len and Encode
  pub get : Text → Values → Text
  pub del : Text → Values → Values
  pub is_empty : Values → Bool
  pub encode : Values → Text
  pub is_ip : Text → Bool
  pub split_host_port : Text → Option (Text × Text)
  pub join_host_port : Text → Text → Text
  pub atoi : Text → Option ℕ
  pub parse_duration : Text → Option ℕ

-- strings.Contains(s, "://")
abbrev pub has_scheme : Text → Bool
has_scheme [] = false
has_scheme (c ∷ s) = has_prefix (c ∷ s) (bytes "://") || has_scheme s

-- strings.Cut(s, "#")
abbrev pub put_before : ℕ → Option (Text × Text) → Option (Text × Text)
put_before c none = none
put_before c (some (host, port)) = some (c ∷ host, port)

abbrev pub cut_hash : Text → Option (Text × Text)
cut_hash [] = none
cut_hash (c ∷ s) = let rest = cut_hash s in if c == b'#' then some ([], s) else put_before c rest

abbrev pub in_range : ℕ → ℕ → Option ℕ → Bool
in_range least most none = false
in_range least most (some n) = leb least n && leb n most

abbrev pub or_zero : Option ℕ → ℕ
or_zero none = 0
or_zero (some n) = n

abbrev pub or_default : Text → Text → Text
or_default default s = if s == [] then default else s

-- TimeoutDuration
abbrev pub timeout_duration : Spec → ℕ
timeout_duration s =
    if ltb 0 s.timeout
    then s.timeout
    else if s.scheme == bytes "https"
    then 20 * second
    else 5 * second

-- SelectionWeight
abbrev pub selection_weight : Spec → ℕ
selection_weight s = if s.weight == 0 then 1 else s.weight

pub data Normalized : Type 0 where
  key : Text → Normalized
  failed : SpecError → Normalized

-- The first bootstrap server that is not a plain UDP address literal.
pub data BootstrapError : Type 0 where
  unparsed : ℕ → SpecError → BootstrapError
  not_udp : ℕ → BootstrapError
  not_ip : ℕ → BootstrapError

abbrev pub url_spec : Text → Text → Text → Text → Spec
url_spec raw scheme hostname port = record {
  scheme = to_lower scheme;
  host = to_lower (trim_dot hostname);
  port = port;
  path = [];
  query = [];
  timeout = 0;
  weight = 0;
  raw = raw;
}

module _ (packages : SpecPackages) where
  open packages use {
    Values, parse_url, get, del, is_empty, encode, is_ip, split_host_port, join_host_port, atoi,
    parse_duration,
  }

  -- Hostname
  abbrev pub is_hostname : Spec → Bool
  is_hostname s = not (is_ip s.host)

  -- NormalizedKey
  unfoldable pub normalized_key : Spec → Text
  normalized_key s =
      let key = s.scheme ++ bytes "://" ++ join_host_port (to_lower (trim_dot s.host)) s.port in
      if s.scheme == bytes "https"
      then key ++ s.path ++ (if s.query == [] then [] else bytes "?" ++ s.query)
      else key

  -- The end of parseExplicitSpec.
  abbrev pub checked : Text → Spec → Parsed
  checked raw s =
      if s.host == []
      then err (missing_host raw)
      else if in_range 1 65535 (atoi s.port)
      then ok s
      else err (bad_port raw)

  -- applyResolverTransport, and the checks behind it
  abbrev pub apply_resolver_transport : Text → Text → Values → Spec → Parsed
  apply_resolver_transport raw path options s =
      if s.scheme == bytes "udp" || s.scheme == bytes "tcp"
      then (if is_empty options
          then checked raw (record s { port = or_default (bytes "53") s.port })
          else err (unsupported_options raw))
      else if s.scheme == bytes "tls"
      then (if is_empty options
          then checked raw (record s { port = or_default (bytes "853") s.port })
          else err (unsupported_options raw))
      else if s.scheme == bytes "https"
      then checked raw (record s {
        port = or_default (bytes "443") s.port;
        path = or_default (bytes "/dns-query") path;
        query = encode options;
      })
      else err (unsupported_scheme raw)

  -- applyResolverOptions: the weight, and then the transport
  abbrev pub apply_weight : Text → Text → Values → Spec → Parsed
  apply_weight raw path options s =
      let value = get (bytes "weight") options in
      if value == []
      then apply_resolver_transport raw path options s
      else if in_range 1 100 (atoi value)
      then apply_resolver_transport raw path (del (bytes "weight") options)
          (record s { weight = or_zero (atoi value) })
      else err (bad_weight raw)

  -- applyResolverOptions: the timeout, and then the weight
  abbrev pub apply_resolver_options : Text → Text → Values → Spec → Parsed
  apply_resolver_options raw path options s =
      let value = get (bytes "timeout") options in
      if value == []
      then apply_weight raw path options s
      else if in_range (250 * millisecond) (60 * second) (parse_duration value)
      then apply_weight raw path (del (bytes "timeout") options)
          (record s { timeout = or_zero (parse_duration value) })
      else err (bad_timeout raw)

  -- parseExplicitSpec
  abbrev pub parse_explicit_spec : Text → Option (Text × Text × Text × Text × Values) → Parsed
  parse_explicit_spec raw none = err (invalid_url raw)
  parse_explicit_spec raw (some (scheme, hostname, port, path, options)) =
      apply_resolver_options raw path options (url_spec raw scheme hostname port)

  abbrev pub plain_spec : Text → Text → Text → Spec
  plain_spec raw host port = record {
    scheme = bytes "udp";
    host = host;
    port = port;
    path = [];
    query = [];
    timeout = 0;
    weight = 0;
    raw = raw;
  }

  abbrev pub plain_at : Text → Text → Option (Text × Text) → Parsed
  plain_at raw normalized none =
      if is_ip normalized
      then ok (plain_spec raw normalized (bytes "53"))
      else err (not_literal raw)
  plain_at raw normalized (some (host, port)) =
      let port = or_default (bytes "53") port in
      if not (is_ip host)
      then err (not_literal raw)
      else if in_range 1 65535 (atoi port)
      then ok (plain_spec raw host port)
      else err (bad_port raw)

  abbrev pub normalized_plain : Text → Option (Text × Text) → Text
  normalized_plain raw none = raw
  normalized_plain raw (some (host, port)) = join_host_port host port

  -- parsePlainSpec
  abbrev pub parse_plain_spec : Text → Parsed
  parse_plain_spec raw =
      let normalized = normalized_plain raw (cut_hash raw) in
      plain_at raw normalized (split_host_port normalized)

  -- Parse
  unfoldable pub parse : Text → Parsed
  parse text =
      let raw = trim_space text in
      if raw == []
      then err empty_spec
      else if has_scheme raw
      then parse_explicit_spec raw (parse_url raw)
      else parse_plain_spec raw

  abbrev pub normalize_parsed : Parsed → Normalized
  normalize_parsed (ok s) = key (normalized_key s)
  normalize_parsed (err e) = failed e

  -- Normalize
  abbrev pub normalize : Text → Normalized
  normalize raw = normalize_parsed (parse raw)

  abbrev pub validate_server : ℕ → Parsed → Option BootstrapError → Option BootstrapError
  validate_server n (err e) rest = some (unparsed n e)
  validate_server n (ok s) rest =
      if not (s.scheme == bytes "udp")
      then some (not_udp n)
      else if is_hostname s
      then some (not_ip n)
      else rest

  abbrev pub validate_from : ℕ → List Text → Option BootstrapError
  validate_from n [] = none
  validate_from n (raw ∷ servers) =
      let rest = validate_from (n + 1) servers in validate_server n (parse raw) rest

  -- ValidateBootstrapServers
  abbrev pub validate_bootstrap_servers : List Text → Option BootstrapError
  validate_bootstrap_servers servers = validate_from 1 servers
