-- ===== src/Filter/Decision.antt =====
-- The decision on a domain (webgui/internal/filter/filter.go, Match and Explain). The name of a
-- source is a parameter.
use resolix.Common.{
  ℕ, ◌+◌, ◌≡◌, refl, Bool, true, false, ◌&&◌, Option, none, some, [], Text, bytes, to_lower,
  trim_dot, trim_space,
}
use resolix.Filter.Rules.{Kind, of_domain, of_regex}
use resolix.Filter.Indexes.{IndexedRule, Index, first_indexed_match}

pub record Result : Type 0 where
  pub allowed : Bool
  pub blocked : Bool
  pub rule : Text
  pub source : Text
  pub reason : Text

pub record Evaluation : Type 0 where
  pub domain : Text
  pub result : Result
  pub allow_rule : Text
  pub allow_source : Text
  pub block_rule : Text
  pub block_source : Text
  pub override : Bool

-- What Match and Explain use of the engine.
pub record Engine (Regexp S : Type 0) : Type 0 where
  pub allow_index : Index Regexp S
  pub block_index : Index Regexp S
  pub allowed_total : ℕ
  pub blocked_total : ℕ

abbrev pub reason_of : {Regexp : Type 0} → Kind Regexp → Text
reason_of (of_domain d) = bytes "FilteredByBlocklist"
reason_of (of_regex re) = bytes "FilteredByRegex"

abbrev pub no_result : Result
no_result = record { allowed = false; blocked = false; rule = []; source = []; reason = [] }

-- The spelling that Explain searches for.
abbrev pub spelled : Text → Text
spelled domain = to_lower (trim_dot (trim_space domain))

module _ {Regexp S : Type 0} (match_string : Regexp → Text → Bool) (name : S → Text) where
  abbrev pub allowed_by : IndexedRule Regexp S → Result
  allowed_by match = record no_result {
    allowed = true;
    rule = match.rule.raw;
    source = name match.source;
  }

  abbrev pub blocked_by : IndexedRule Regexp S → Result
  blocked_by match = record {
    allowed = false;
    blocked = true;
    rule = match.rule.raw;
    source = name match.source;
    reason = reason_of match.rule.kind;
  }

  abbrev pub match_block :
      Engine Regexp S → Option (IndexedRule Regexp S) → Engine Regexp S × Result
  match_block e none = (e, no_result)
  match_block e (some match) = (record e { blocked_total = e.blocked_total + 1 }, blocked_by match)

  abbrev pub match_allow :
      Engine Regexp S → Text → Option (IndexedRule Regexp S) → Engine Regexp S × Result
  match_allow e domain none = match_block e (first_indexed_match match_string domain e.block_index)
  match_allow e domain (some match) =
      (record e { allowed_total = e.allowed_total + 1 }, allowed_by match)

  -- Match
  unfoldable pub match_domain : Engine Regexp S → Text → Engine Regexp S × Result
  match_domain e domain =
      match_allow e domain (first_indexed_match match_string domain e.allow_index)

  abbrev pub is_found : Option (IndexedRule Regexp S) → Bool
  is_found none = false
  is_found (some match) = true

  abbrev pub with_allow : Evaluation → Option (IndexedRule Regexp S) → Evaluation
  with_allow v none = v
  with_allow v (some match) = record v {
    allow_rule = match.rule.raw;
    allow_source = name match.source;
    result = allowed_by match;
  }

  abbrev pub with_block : Evaluation → Bool → Option (IndexedRule Regexp S) → Evaluation
  with_block v has_allow none = v
  with_block v true (some match) = record v {
    block_rule = match.rule.raw;
    block_source = name match.source;
  }
  with_block v false (some match) = record v {
    block_rule = match.rule.raw;
    block_source = name match.source;
    result = blocked_by match;
  }

  abbrev pub evaluate :
      Text → Option (IndexedRule Regexp S) → Option (IndexedRule Regexp S) → Evaluation
  evaluate domain allow block =
      let v : Evaluation = record {
        domain = domain;
        result = no_result;
        allow_rule = [];
        allow_source = [];
        block_rule = [];
        block_source = [];
        override = false;
      } in
      record (with_block (with_allow v allow) (is_found allow) block) {
        override = is_found allow && is_found block;
      }

  -- Explain
  unfoldable pub explain : Engine Regexp S → Text → Evaluation
  explain e domain =
      evaluate (spelled domain) (first_indexed_match match_string (spelled domain) e.allow_index)
        (first_indexed_match match_string (spelled domain) e.block_index)

  evaluate-same :
      (e : Engine Regexp S) (domain : Text) (allow block : Option (IndexedRule Regexp S))
      → first_indexed_match match_string domain e.block_index ≡ block
      → (evaluate domain allow block).result ≡ (match_allow e domain allow).1
  evaluate-same e domain none none p = rw p refl
  evaluate-same e domain none (some b) p = rw p refl
  evaluate-same e domain (some a) none p = refl
  evaluate-same e domain (some a) (some b) p = refl

  -- The explanation of a domain gives the result that Match gives for it, in the spelling that the
  -- explanation searches for: allowed if an allow rule matches, else blocked if a block rule
  -- matches, with the same rule, source and reason.
  pub explain-match_domain :
      (e : Engine Regexp S) (domain : Text)
      → (explain e domain).result ≡ (match_domain e (spelled domain)).1
  unfolding explain match_domain
  explain-match_domain e domain =
      evaluate-same e (spelled domain)
        (first_indexed_match match_string (spelled domain) e.allow_index)
        (first_indexed_match match_string (spelled domain) e.block_index) refl
