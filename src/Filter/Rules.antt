-- ===== src/Filter/Rules.antt =====
-- A filter rule and what it matches (webgui/internal/filter/rule.go). Compiled regular expressions
-- are those of package regexp: their type and their match are parameters.
use resolix.Common.{
  ◌∷◌, ℕ, true, false, [], not, ◌&&◌, ◌+◌, ◌*◌, leb, ltb, length, if◌then◌else◌, Bool, ◌||◌, ◌++◌,
  ◌==◌, nat_comparable, list_comparable, Text, bytes, has_suffix,
}

-- The kind of a rule with the field that it uses.
pub data Kind (Regexp : Type 0) : Type 0 where
  of_domain : Text → Kind Regexp
  of_regex : Regexp → Kind Regexp

pub record Rule (Regexp : Type 0) : Type 0 where
  pub raw : Text
  pub kind : Kind Regexp

-- matchDomainSuffix
unfoldable pub match_domain_suffix : Text → Text → Bool
match_domain_suffix rule_domain domain =
    domain == rule_domain || has_suffix domain (bytes "." ++ rule_domain)

module _ {Regexp : Type 0} (match_string : Regexp → Text → Bool) where
  abbrev pub matches_kind : Kind Regexp → Text → Bool
  matches_kind (of_domain d) domain = match_domain_suffix d domain
  matches_kind (of_regex re) domain = match_string re domain

  -- matches
  abbrev pub matches : Rule Regexp → Text → Bool
  matches r domain = matches_kind r.kind domain

abbrev pub has_dot : Text → Bool
has_dot [] = false
has_dot (c ∷ d) = c == b'.' || has_dot d

-- Letters, digits, hyphen, underscore and dot.
abbrev pub plain_name : Text → Bool
plain_name [] = true
plain_name (c ∷ d) =
    (leb b'a' c && leb c b'z' || leb b'0' c && leb c b'9' || c == b'-' || c == b'_' || c == b'.')
    && plain_name d

-- validDomain
unfoldable pub valid_domain : Text → Bool
valid_domain d = not (ltb (length d) 3) && has_dot d && plain_name d

-- The clock and the pause of the engine, in seconds; 0 says that there is none. Pause with a number
-- of minutes that is not positive is `minutes` 0.
unfoldable pub pause : ℕ → ℕ → ℕ
pause now minutes = if minutes == 0 then 0 else now + minutes * 60

unfoldable pub paused : ℕ → ℕ → Bool
paused until now = not (until == 0) && ltb now until
