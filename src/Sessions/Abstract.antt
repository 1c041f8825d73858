-- ===== src/Sessions/Abstract.antt =====
-- What a session is, and that the table accepts no other
-- (webgui/internal/api/security.go, newSession and validSession).
use mathlib.Core.Path.{subst}
use resolix.Common.{
  ℕ, ◌+◌, ◌-◌, ◌≡◌, ◌⊎◌, inl, inr, refl, sym, ap, ◌∙◌, Bool, true, false, ◌&&◌, Bool-cases, Option,
  none, some, List, [], ◌∷◌, length, ltb, ◌==◌, ==_iff, nat_comparable, list_comparable,
  if◌then◌else◌, Text, find, find-store, find-without, arith,
}
use resolix.Sessions.Table.{
  SessionEntry, Sessions, expired, live_sessions, evict_oldest, fresh_entry, new_session, refresh,
  valid_session, Call, issues, validates, deletes, deletes_all, step, run,
}
use resolix.Sessions.Bounded.{IsBounded, step-IsBounded, live-Shrinks, evict_oldest-Shrinks}

-- A session, when it was issued and when it was last used, is live at a time.
abbrev pub is_live : ℕ → ℕ × ℕ → Bool
is_live now (issued, used) = ltb now (issued + 86400000000000) && ltb (now - used) 43200000000000

abbrev pub used_at : ℕ → Option (ℕ × ℕ) → Option (ℕ × ℕ)
used_at now none = none
used_at now (some s) = if is_live now s then some (s.0, now) else none

-- The session that a token stands for after a call: the last one issued for it that is not
-- deleted. The empty token names none.
abbrev pub after : Text → Call → Option (ℕ × ℕ) → Option (ℕ × ℕ)
after k (issues token csrf now) o = if token == k then some (now, now) else o
after k (validates token now) o = if token == [] then o else if token == k then used_at now o else o
after k (deletes token) o = if token == k then none else o
after k deletes_all o = none

abbrev pub after_all : Text → List Call → Option (ℕ × ℕ) → Option (ℕ × ℕ)
after_all k [] o = o
after_all k (c ∷ calls) o = after_all k calls (after k c o)

-- An entry of the table stands for that session, or there is none.
abbrev pub Below : Option SessionEntry → Option (ℕ × ℕ) → Type 0
Below none o = Unit
Below (some e) none = ⊥
Below (some e) (some (issued, used)) = (e.expires ≡ issued + 86400000000000) × (e.last_seen ≡ used)

shrink-Below :
    (o n : Option SessionEntry) (a : Option (ℕ × ℕ)) → (n ≡ o) ⊎ (n ≡ none) → Below o a → Below n a
shrink-Below o n a (inl e) b = rw e b
shrink-Below o n a (inr e) b = rw e tt

issued-Below :
    (k token csrf : Text) (now : ℕ) (m : Sessions) (a : Option (ℕ × ℕ))
    → IsBounded m
    → Below (find k m) a
    → Below (find k (new_session token csrf now m)) (after k (issues token csrf now) a)
unfolding new_session
issued-Below k token csrf now m a v b =
    let live = live_sessions now m in
    let left = evict_oldest (length live) live in
    rw (find-store token k (fresh_entry csrf now) left) (elim (Bool-cases (token == k)) [
      | inl e ↦ rw e (refl, refl)
      | inr e ↦ rw e (
          shrink-Below (find k live) (find k left) a (evict_oldest-Shrinks (length live) live k)
            (shrink-Below (find k m) (find k live) a (live-Shrinks now m v k) b))
    ])

abbrev value : SessionEntry → Option SessionEntry → SessionEntry
value e none = e
value e (some f) = f

pub some_injective : {f e : SessionEntry} → some f ≡ some e → f ≡ e
some_injective {f} {e} h = ap (value e) h

either_live :
    (now : ℕ) (b : Bool) (f e : SessionEntry) (o : Option SessionEntry)
    → (if b then some f else o) ≡ some e
    → expired now f ≡ false
    → (o ≡ some e → expired now e ≡ false)
    → expired now e ≡ false
either_live now true f e o h x later = ap (expired now) (sym (some_injective h)) ∙ x
either_live now false f e o h x later = later h

pub live-expired :
    (k : Text) (now : ℕ) (m : Sessions) (e : SessionEntry)
    → find k (live_sessions now m) ≡ some e
    → expired now e ≡ false
unfolding find
live-expired k now [] e h = cc
live-expired k now ((j, f) ∷ m) e h = elim (Bool-cases (expired now f)) [
  | inl x ↦ live-expired k now m e (rw x at h)
  | inr x ↦
      either_live now (j == k) f e (find k (live_sessions now m)) (rw x at h) x
        (live-expired k now m e)
]

used-Below :
    (now : ℕ) (e : SessionEntry) (a : Option (ℕ × ℕ))
    → expired now e ≡ false
    → Below (some e) a
    → Below (some (record e { last_seen = now })) (used_at now a)
used-Below now e none x b = b
used-Below now e (some (issued, used)) x b =
    let live : is_live now (issued, used) ≡ true = ground (arith, x, b.0, b.1) in
    rw live (b.0, refl)

refreshed-Below :
    (k token : Text) (now : ℕ) (live : Sessions) (o : Option SessionEntry) (a : Option (ℕ × ℕ))
    → find token live ≡ o
    → ((e : SessionEntry) → find token live ≡ some e → expired now e ≡ false)
    → Below (find k live) a
    → Below (find k (refresh token now live o).0) (if token == k then used_at now a else a)
refreshed-Below k token now live none a h x b = elim (Bool-cases (token == k)) [
  | inl e ↦ rw e (rw (ap (λ j. find j live) (sym ((==_iff token k).0 e)) ∙ h) tt)
  | inr e ↦ rw e b
]
refreshed-Below k token now live (some f) a h x b =
    rw (find-store token k (record f { last_seen = now }) live) (elim (Bool-cases (token == k)) [
      | inl e ↦ rw e (
          used-Below now f a (x f h)
            (subst (λ o. Below o a) (ap (λ j. find j live) (sym ((==_iff token k).0 e)) ∙ h) b))
      | inr e ↦ rw e b
    ])

validated-Below :
    (k token : Text) (now : ℕ) (m : Sessions) (a : Option (ℕ × ℕ))
    → IsBounded m
    → Below (find k m) a
    → Below (find k (valid_session token now m).0) (after k (validates token now) a)
unfolding valid_session
validated-Below k token now m a v b =
    let live = live_sessions now m in
    let c : Below (find k live) a =
      shrink-Below (find k m) (find k live) a (live-Shrinks now m v k) b in
    elim (Bool-cases (token == [])) [
      | inl e ↦ rw e c
      | inr e ↦ rw e (
          refreshed-Below k token now live (find token live) a refl
            (λ f. live-expired token now m f) c)
    ]

step-Below :
    (k : Text) (c : Call) (m : Sessions) (a : Option (ℕ × ℕ))
    → IsBounded m
    → Below (find k m) a
    → Below (find k (step c m)) (after k c a)
unfolding find
step-Below k (issues token csrf now) m a v b = issued-Below k token csrf now m a v b
step-Below k (validates token now) m a v b = validated-Below k token now m a v b
step-Below k (deletes token) m a v b =
    rw (find-without token k m)
      (elim (Bool-cases (token == k)) [ inl e ↦ rw e tt | inr e ↦ rw e b ])
step-Below k deletes_all m a v b = tt

refreshed-is_live :
    (token : Text) (now : ℕ) (live : Sessions) (o : Option SessionEntry) (a : Option (ℕ × ℕ))
    → ((e : SessionEntry) → o ≡ some e → expired now e ≡ false)
    → Below o a
    → (refresh token now live o).1 ≡ true
    → (s : ℕ × ℕ) × ((a ≡ some s) × (is_live now s ≡ true))
refreshed-is_live token now live none a x b h = cc
refreshed-is_live token now live (some e) none x b h = absurd b
refreshed-is_live token now live (some e) (some (issued, used)) x b h =
    let fresh = x e refl in ((issued, used), (refl, ground (arith, fresh, b.0, b.1)))

accepted-is_live :
    (token : Text) (now : ℕ) (m : Sessions) (a : Option (ℕ × ℕ))
    → IsBounded m
    → Below (find token m) a
    → (valid_session token now m).1 ≡ true
    → (s : ℕ × ℕ) × ((a ≡ some s) × (is_live now s ≡ true))
unfolding valid_session
accepted-is_live token now m a v b h =
    let live = live_sessions now m in
    elim (Bool-cases (token == [])) [
      | inl e ↦ refused (rw e at h)
      | inr e ↦
          refreshed-is_live token now live (find token live) a (λ f. live-expired token now m f)
            (shrink-Below (find token m) (find token live) a (live-Shrinks now m v token) b)
            (rw e at h)
    ]
  where
    refused : false ≡ true → (s : ℕ × ℕ) × ((a ≡ some s) × (is_live now s ≡ true))
    refused f = cc

run-IsBounded : (calls : List Call) (m : Sessions) → IsBounded m → IsBounded (run calls m)
run-IsBounded [] m v = v
run-IsBounded (c ∷ calls) m v = run-IsBounded calls (step c m) (step-IsBounded c m v)

run-Below :
    (k : Text) (calls : List Call) (m : Sessions) (a : Option (ℕ × ℕ))
    → IsBounded m
    → Below (find k m) a
    → Below (find k (run calls m)) (after_all k calls a)
run-Below k [] m a v b = b
run-Below k (c ∷ calls) m a v b =
    run-Below k calls (step c m) (after k c a) (step-IsBounded c m v) (step-Below k c m a v b)

-- When a token is accepted after any calls from an empty table, at any times: a session was issued
-- for it that is not deleted, less than 24 hours ago, and it was issued or accepted less than 12
-- hours ago. The table holds a token once, and 1024 tokens at most.
pub accepted-after_all :
    (calls : List Call) (token : Text) (now : ℕ)
    → (valid_session token now (run calls [])).1 ≡ true
    → IsBounded (run calls [])
      × ((s : ℕ × ℕ) × ((after_all token calls none ≡ some s) × (is_live now s ≡ true)))
unfolding find
accepted-after_all calls token now h =
    let v : IsBounded [] = record { unique = tt; room = omega arith } in
    (
      run-IsBounded calls [] v,
      accepted-is_live token now (run calls []) (after_all token calls none)
          (run-IsBounded calls [] v) (run-Below token calls [] none v tt) h,
    )
