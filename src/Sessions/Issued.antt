-- ===== src/Sessions/Issued.antt =====
-- A session that was issued is accepted for its time
-- (webgui/internal/api/security.go, newSession, validSession and sessionCSRFToken).
use mathlib.Core.Path.{subst}
use resolix.Common.{
  ℕ, ◌+◌, ◌≤◌, ◌≡◌, ◌≢◌, inl, inr, refl, sym, ap, ◌∙◌, Bool, true, false, not, Bool-cases, Option,
  none, some, List, [], ◌∷◌, length, ◌==◌, ==_iff, nat_comparable, list_comparable, if◌then◌else◌,
  if_intro, Text, find, find-store, Shrinks-none, arith,
}
use resolix.Sessions.Table.{
  SessionEntry, Sessions, expired, live_sessions, evict_oldest, fresh_entry, new_session, refresh,
  valid_session, lookup_session, session_csrf_token, csrf_of, unless_expired, Call, validates, run,
}
use resolix.Sessions.Bounded.{IsBounded, live-Shrinks, new_session-IsBounded, step-IsBounded}
use resolix.Sessions.Abstract.{is_live, live-expired, some_injective, used_at, after, after_all}

true-false : true ≢ false
true-false e = cc

live-find :
    (k : Text) (now : ℕ) (m : Sessions) (e : SessionEntry)
    → find k m ≡ some e
    → expired now e ≡ false
    → find k (live_sessions now m) ≡ some e
unfolding find
live-find k now [] e h x = h
live-find k now ((j, f) ∷ m) e h x = elim (Bool-cases (j == k)) [
  | inl g ↦
      let q : some f ≡ some e = rw g at h in rw (ap (expired now) (some_injective q) ∙ x) (rw g q)
  | inr g ↦
      let later = live-find k now m e (rw g at h) x in
      if_intro (λ l. find k l ≡ some e) (not (expired now f)) (λ _. rw g later) (λ _. later)
]

issued-find :
    (token csrf : Text) (at : ℕ) (m : Sessions)
    → find token (new_session token csrf at m) ≡ some (fresh_entry csrf at)
unfolding new_session
issued-find token csrf at m =
    let live = live_sessions at m in
    find-store token token (fresh_entry csrf at) (evict_oldest (length live) live)
    ∙ rw ((==_iff token token).1 refl) refl

-- Validations, each of a token at a time.
abbrev pub validations : List (Text × ℕ) → List Call
validations [] = []
validations ((token, now) ∷ checks) = validates token now ∷ validations checks

-- Time does not run back between `start`, the validations and the end.
abbrev pub IsTimed : ℕ → List (Text × ℕ) → ℕ → Type 0
IsTimed start [] end = start ≤ end
IsTimed start ((token, now) ∷ checks) end = (start ≤ now) × IsTimed now checks end

-- Whether there is a session, and it is live.
abbrev pub live_at : ℕ → Option (ℕ × ℕ) → Bool
live_at now none = false
live_at now (some s) = is_live now s

-- At this time and later the entry stands for the session, or is gone with it.
abbrev Alive : Text → ℕ → Option SessionEntry → Option (ℕ × ℕ) → Type 0
Alive csrf now none a = live_at now a ≡ false
Alive csrf now (some e) none = ⊥
Alive csrf now (some e) (some (issued, used)) =
    (e.expires ≡ issued + 86400000000000) × (e.last_seen ≡ used) × (e.csrf ≡ csrf)

dead_later :
    (t now : ℕ) (a : Option (ℕ × ℕ)) → t ≤ now → live_at t a ≡ false → live_at now a ≡ false
dead_later t now none h d = refl
dead_later t now (some (issued, used)) h d = ground (arith, h, d)

expired-dead :
    (csrf : Text) (now t : ℕ) (e : SessionEntry) (a : Option (ℕ × ℕ))
    → Alive csrf t (some e) a
    → live_at now a ≡ not (expired now e)
expired-dead csrf now t e none b = absurd b
expired-dead csrf now t e (some (issued, used)) b = ground (arith, b.0, b.1)

absent-live :
    (k : Text) (now : ℕ) (m : Sessions) (o : Option SessionEntry)
    → IsBounded m
    → find k m ≡ o
    → o ≡ none
    → find k (live_sessions now m) ≡ none
absent-live k now m o v h n = Shrinks-none m (live_sessions now m) k (live-Shrinks now m v) (h ∙ n)

expired-find :
    (k : Text) (now : ℕ) (m : Sessions) (e : SessionEntry)
    → IsBounded m
    → find k m ≡ some e
    → expired now e ≡ true
    → find k (live_sessions now m) ≡ none
expired-find k now m e v h x = elim (live-Shrinks now m v k) [
  | inl s ↦ absurd (true-false (sym x ∙ live-expired k now m e (s ∙ h)))
  | inr s ↦ s
]

pruned-Alive :
    (k csrf : Text) (t now : ℕ) (m : Sessions) (o : Option SessionEntry) (a : Option (ℕ × ℕ))
    → IsBounded m
    → find k m ≡ o
    → t ≤ now
    → Alive csrf t o a
    → Alive csrf now (find k (live_sessions now m)) a
pruned-Alive k csrf t now m none a v h le b =
    rw (absent-live k now m none v h refl) (dead_later t now a le b)
pruned-Alive k csrf t now m (some e) none v h le b = absurd b
pruned-Alive k csrf t now m (some e) (some s) v h le b = elim (Bool-cases (expired now e)) [
  | inl x ↦ rw (expired-find k now m e v h x) (expired-dead csrf now t e (some s) b ∙ rw x refl)
  | inr x ↦ rw (live-find k now m e h x) b
]

used-Alive :
    (csrf : Text) (now : ℕ) (e : SessionEntry) (a : Option (ℕ × ℕ))
    → expired now e ≡ false
    → Alive csrf now (some e) a
    → Alive csrf now (some (record e { last_seen = now })) (used_at now a)
used-Alive csrf now e none x b = b
used-Alive csrf now e (some (issued, used)) x b =
    let live : is_live now (issued, used) ≡ true = ground (arith, x, b.0, b.1) in
    rw live (b.0, refl, b.2)

dead-used_at :
    (now : ℕ) (a : Option (ℕ × ℕ)) → live_at now a ≡ false → live_at now (used_at now a) ≡ false
dead-used_at now none d = refl
dead-used_at now (some s) d = rw d refl

refreshed-Alive :
    (k token csrf : Text) (now : ℕ) (live : Sessions) (o : Option SessionEntry) (a : Option (ℕ × ℕ))
    → find token live ≡ o
    → ((e : SessionEntry) → find token live ≡ some e → expired now e ≡ false)
    → Alive csrf now (find k live) a
    → Alive csrf now (find k (refresh token now live o).0) (if token == k then used_at now a else a)
refreshed-Alive k token csrf now live none a h x b = elim (Bool-cases (token == k)) [
  | inl e ↦
      let gone : find k live ≡ none = ap (λ j. find j live) (sym ((==_iff token k).0 e)) ∙ h in
      rw e (rw gone (dead-used_at now a (subst (λ o. Alive csrf now o a) gone b)))
  | inr e ↦ rw e b
]
refreshed-Alive k token csrf now live (some f) a h x b =
    rw (find-store token k (record f { last_seen = now }) live) (elim (Bool-cases (token == k)) [
      | inl e ↦ rw e (
          used-Alive csrf now f a (x f h) (
            subst (λ o. Alive csrf now o a) (ap (λ j. find j live) (sym ((==_iff token k).0 e)) ∙ h)
              b))
      | inr e ↦ rw e b
    ])

validated-Alive :
    (k token csrf : Text) (t now : ℕ) (m : Sessions) (a : Option (ℕ × ℕ))
    → IsBounded m
    → t ≤ now
    → Alive csrf t (find k m) a
    → Alive csrf now (find k (valid_session token now m).0) (after k (validates token now) a)
unfolding valid_session
validated-Alive k token csrf t now m a v le b =
    let live = live_sessions now m in
    let c = pruned-Alive k csrf t now m (find k m) a v refl le b in
    elim (Bool-cases (token == [])) [
      | inl e ↦ rw e c
      | inr e ↦ rw e (
          refreshed-Alive k token csrf now live (find token live) a refl
            (λ f. live-expired token now m f) c)
    ]

refresh-accepts :
    (k csrf : Text) (now : ℕ) (live : Sessions) (o : Option SessionEntry) (a : Option (ℕ × ℕ))
    → ((e : SessionEntry) → o ≡ some e → expired now e ≡ false)
    → Alive csrf now o a
    → (refresh k now live o).1 ≡ live_at now a
refresh-accepts k csrf now live none a x b = sym b
refresh-accepts k csrf now live (some e) a x b =
    sym (expired-dead csrf now now e a b ∙ ap not (x e refl))

csrf_of-lookup :
    (csrf : Text) (t now : ℕ) (o : Option SessionEntry) (a : Option (ℕ × ℕ))
    → t ≤ now
    → Alive csrf t o a
    → csrf_of (unless_expired now o) ≡ (if live_at now a then (csrf, true) else ([], false))
csrf_of-lookup csrf t now none a le b = rw (dead_later t now a le b) refl
csrf_of-lookup csrf t now (some e) none le b = absurd b
csrf_of-lookup csrf t now (some e) (some s) le b = elim (Bool-cases (expired now e)) [
  | inl x ↦ rw (expired-dead csrf now t e (some s) b) (rw x refl)
  | inr x ↦ rw (expired-dead csrf now t e (some s) b) (rw x (ap (λ c. (c, true)) b.2))
]

-- What the checks of a token that is not empty say of the session of a table.
pub record IsAnswered (token csrf : Text) (now : ℕ) (m : Sessions) (a : Option (ℕ × ℕ))
    : Type 0 where
  pub accepted : (valid_session token now m).1 ≡ live_at now a
  pub found : session_csrf_token token now m ≡ (if live_at now a then (csrf, true) else ([], false))

Alive-IsAnswered :
    (token csrf : Text) (t now : ℕ) (m : Sessions) (a : Option (ℕ × ℕ))
    → IsBounded m
    → token ≢ []
    → t ≤ now
    → Alive csrf t (find token m) a
    → IsAnswered token csrf now m a
unfolding valid_session session_csrf_token lookup_session
Alive-IsAnswered token csrf t now m a v n le b =
    let live = live_sessions now m in
    let named : (token == []) ≡ false = ground (arith, n, ==_iff token []) in
    record {
      accepted = rw named (
          refresh-accepts token csrf now live (find token live) a (λ f. live-expired token now m f)
            (pruned-Alive token csrf t now m (find token m) a v refl le b));
      found = csrf_of-lookup csrf t now (find token m) a le b;
    }

validations-IsAnswered :
    (token csrf : Text) (t now : ℕ) (m : Sessions) (a : Option (ℕ × ℕ)) (checks : List (Text × ℕ))
    → IsBounded m
    → token ≢ []
    → IsTimed t checks now
    → Alive csrf t (find token m) a
    → IsAnswered token csrf now
        (run (validations checks) m)
        (after_all token (validations checks) a)
validations-IsAnswered token csrf t now m a [] v n w b =
    Alive-IsAnswered token csrf t now m a v n w b
validations-IsAnswered token csrf t now m a ((k, s) ∷ checks) v n w b =
    validations-IsAnswered token csrf s now (valid_session k s m).0 (after token (validates k s) a)
      checks (step-IsBounded (validates k s) m v) n w.1
      (validated-Alive token k csrf t s m a v w.0 b)

-- On any bounded table, after a session is issued for a token that is not empty, with any
-- validations of this token and of others at times that do not run back, and no other session
-- issued: a further check accepts the token exactly if every time between its uses was less than 12
-- hours, up to this check, and it was issued less than 24 hours ago; its CSRF token is found
-- exactly then, and is the one it was issued with.
pub issued-validated :
    (token csrf : Text) (at now : ℕ) (m : Sessions) (checks : List (Text × ℕ))
    → IsBounded m
    → token ≢ []
    → IsTimed at checks now
    → IsAnswered token csrf now
        (run (validations checks) (new_session token csrf at m))
        (after_all token (validations checks) (some (at, at)))
issued-validated token csrf at now m checks v n w =
    validations-IsAnswered token csrf at now (new_session token csrf at m) (some (at, at)) checks
      (new_session-IsBounded token csrf at m v) n w
      (subst (λ o. Alive csrf at o (some (at, at))) (sym (issued-find token csrf at m))
        (refl, refl, refl))
