-- ===== src/Sessions/Bounded.antt =====
-- The table of sessions never grows beyond its bound (webgui/internal/api/security.go).
use resolix.Common.{
  ℕ, zero, suc, ◌+◌, ◌≤◌, ◌<◌, ◌≡◌, ◌⊎◌, inl, inr, refl, Bool, true, Option, none, some,
  Option-cases, [], ◌∷◌, length, length-keep-le, leb, ◌==◌, ==_iff, nat_comparable, list_comparable,
  if_intro, Text, find, store, without, Unique, find-without, length-without, length-store,
  length-without_le, without-Unique, store-Unique, keep-Unique, Shrinks, keep-Shrinks, arith,
}
use resolix.Sessions.Table.{
  SessionEntry, Sessions, max_sessions, still_live, live_sessions, oldest_from, oldest,
  evict_oldest, fresh_entry, new_session, refresh, valid_session, is_found, Call, issues, validates,
  deletes, deletes_all, step,
}

oldest_from-is_found :
    (best : Text × SessionEntry) (m : Sessions)
    → is_found (find (oldest_from best m) (best ∷ m)) ≡ true
unfolding find
oldest_from-is_found best [] = rw ((==_iff best.0 best.0).1 refl) refl
oldest_from-is_found best (s ∷ m) =
    ground (arith, oldest_from-is_found best m, oldest_from-is_found s m)

without-oldest-length :
    (s : Text × SessionEntry) (m : Sessions)
    → Unique (s ∷ m)
    → length (without (oldest (s ∷ m)) (s ∷ m)) + 1 ≡ length (s ∷ m)
without-oldest-length s m u = elim (Option-cases (find (oldest (s ∷ m)) (s ∷ m))) [
  | inl e ↦ ground (arith, e, oldest_from-is_found s m)
  | inr (e, h) ↦ length-without (oldest (s ∷ m)) e (s ∷ m) u h
]

-- The turns that the loop is given are enough.
evict_oldest-lt :
    (fuel : ℕ) (m : Sessions)
    → Unique m
    → length m ≤ fuel
    → length (evict_oldest fuel m) < max_sessions
evict_oldest-lt zero m u h = omega (arith, h)
evict_oldest-lt (suc fuel) [] u h = omega arith
evict_oldest-lt (suc fuel) (s ∷ m) u h =
    if_intro (λ n. length n < max_sessions) (leb max_sessions (length (s ∷ m)))
      (λ _.
        evict_oldest-lt fuel (without (oldest (s ∷ m)) (s ∷ m))
          (without-Unique (oldest (s ∷ m)) (s ∷ m) u)
          (omega (arith, h, without-oldest-length s m u)))
      (λ e. ground (arith, e))

pub evict_oldest-Shrinks : (fuel : ℕ) (m : Sessions) → Shrinks m (evict_oldest fuel m)
evict_oldest-Shrinks zero m k = inl refl
evict_oldest-Shrinks (suc fuel) m k =
    if_intro (λ n. (find k n ≡ find k m) ⊎ (find k n ≡ none)) (leb max_sessions (length m))
      (λ _.
        ground
          (arith, find-without (oldest m) k m, evict_oldest-Shrinks fuel (without (oldest m) m) k))
      (λ _. inl refl)

evict_oldest-Unique : (fuel : ℕ) (m : Sessions) → Unique m → Unique (evict_oldest fuel m)
evict_oldest-Unique zero m u = u
evict_oldest-Unique (suc fuel) m u =
    if_intro (λ n. Unique n) (leb max_sessions (length m))
      (λ _. evict_oldest-Unique fuel (without (oldest m) m) (without-Unique (oldest m) m u))
      (λ _. u)

length-store_le : (k : Text) (e : SessionEntry) (m : Sessions) → length (store k e m) ≤ length m + 1
unfolding store
length-store_le k e [] = omega arith
length-store_le k e (s ∷ m) = ground (arith, length-store_le k e m)

pub record IsBounded (m : Sessions) : Type 0 where
  pub unique : Unique m
  pub room : length m ≤ max_sessions

live-IsBounded : (now : ℕ) (m : Sessions) → IsBounded m → IsBounded (live_sessions now m)
live-IsBounded now m v = record {
  unique = keep-Unique (still_live now) m v.unique;
  room = omega (arith, length-keep-le (still_live now) m, v.room);
}

pub new_session-IsBounded :
    (token csrf : Text) (now : ℕ) (m : Sessions)
    → IsBounded m
    → IsBounded (new_session token csrf now m)
unfolding new_session
new_session-IsBounded token csrf now m v =
    let live = live_sessions now m in
    let w : IsBounded live = live-IsBounded now m v in
    let left = evict_oldest (length live) live in
    record {
      unique =
          store-Unique token (fresh_entry csrf now) left
            (evict_oldest-Unique (length live) live w.unique);
      room = omega (
        arith,
        length-store_le token (fresh_entry csrf now) left,
        evict_oldest-lt (length live) live w.unique (omega arith),
      );
    }

refresh-IsBounded :
    (token : Text) (now : ℕ) (live : Sessions) (o : Option SessionEntry)
    → find token live ≡ o
    → IsBounded live
    → IsBounded (refresh token now live o).0
refresh-IsBounded token now live none h v = v
refresh-IsBounded token now live (some e) h v = record {
  unique = store-Unique token (record e { last_seen = now }) live v.unique;
  room = omega (arith, length-store token (record e { last_seen = now }) e live h, v.room);
}

valid_session-IsBounded :
    (token : Text) (now : ℕ) (m : Sessions) → IsBounded m → IsBounded (valid_session token now m).0
unfolding valid_session
valid_session-IsBounded token now m v =
    let w : IsBounded (live_sessions now m) = live-IsBounded now m v in
    if_intro (λ (r : Sessions × Bool). IsBounded r.0) (token == []) (λ _. w)
      (λ _.
        refresh-IsBounded token now (live_sessions now m) (find token (live_sessions now m)) refl w)

pub step-IsBounded : (c : Call) (m : Sessions) → IsBounded m → IsBounded (step c m)
step-IsBounded (issues token csrf now) m v = new_session-IsBounded token csrf now m v
step-IsBounded (validates token now) m v = valid_session-IsBounded token now m v
step-IsBounded (deletes token) m v = record {
  unique = without-Unique token m v.unique;
  room = omega (arith, length-without_le token m, v.room);
}
step-IsBounded deletes_all m v = record { unique = tt; room = omega arith }

pub live-Shrinks : (now : ℕ) (m : Sessions) → IsBounded m → Shrinks m (live_sessions now m)
live-Shrinks now m v = keep-Shrinks (still_live now) m v.unique
