-- ===== src/Rewrites/Changes.antt =====
-- What the changes of the rewrites keep (webgui/internal/rewrites/rewrites.go, Replace, Add, Update
-- and Delete).
use resolix.Common.{
  ℕ, zero, suc, ◌≤◌, ◌≡◌, ◌≢◌, refl, ap, sym, ◌∙◌, Bool, true, false, Option, none, some, List, [],
  ◌∷◌, ◌++◌, length, take, drop, All, ltb, nat_comparable, list_comparable, if◌then◌else◌, Text,
  arith, if_intro,
}
use resolix.Rewrites.Rule.{Rewrite}
use resolix.Rewrites.Store.{
  Store, Write, unsynced, write_file, save_items, save, replace, add, index_of, put_at, item_at,
  Answer, update_at, update, delete_found, delete_at, delete,
}
use resolix.Rewrites.Saving.{IsSafe, save_items-IsSaved, replace-IsSafe, add-IsSafe, untake}

-- The change that a request to the API makes.
pub data Call (Prefix : Type 0) : Type 0 where
  replaces : List (Rewrite Prefix) → Call Prefix
  adds : Rewrite Prefix → Call Prefix
  updates : Rewrite Prefix → Call Prefix
  deletes : Text → Call Prefix

module _ {Prefix : Type 0} where
  -- The store afterwards, and whether there was no error.
  unfoldable pub apply : Store Prefix → Call Prefix → Write → Store Prefix × Bool
  apply s (replaces items) w = replace s items w
  apply s (adds item) w = add s item w
  apply s (updates item) w = ((update s item w).0, (update s item w).2)
  apply s (deletes id) w = ((delete s id w).0, (delete s id w).2)

  abbrev pub apply_all : Store Prefix → List (Call Prefix × Write) → Store Prefix
  apply_all s [] = s
  apply_all s ((c, w) ∷ calls) = apply_all (apply s c w).0 calls

  untouched-IsSafe : (s : Store Prefix) (w : Write) → IsSafe s w (s, true)
  untouched-IsSafe s w = record { kept = λ _. refl; path = refl; in_step = λ _ before p. before p }

  abbrev Changed : Store Prefix → Write → Answer Prefix → Type 0
  Changed s w a = IsSafe s w (a.0, a.2)

  update_at-IsSafe :
      (s : Store Prefix) (item : Rewrite Prefix) (w : Write) (at : Option ℕ)
      → Changed s w (update_at s item w at)
  unfolding update_at
  update_at-IsSafe s item w none = untouched-IsSafe s w
  update_at-IsSafe s item w (some idx) =
      let items = put_at idx item s.items in
      let v = save_items-IsSaved s items w in
      if_intro (Changed s w) (save_items s items w).1
        (λ ok. record {
          kept = λ e. ground (arith, e);
          path = v.path;
          in_step = λ _ _ p. v.done ok (sym v.path ∙ p);
        })
        (λ bad. record {
          kept = λ _. v.memory;
          path = v.path;
          in_step = λ n before p. v.undone bad n ∙ before (sym v.path ∙ p) ∙ sym v.memory;
        })

  -- What was taken out is put back at its place.
  put_back :
      (n : ℕ) (xs : List (Rewrite Prefix)) (x : Rewrite Prefix)
      → item_at n xs ≡ some x
      → let l = take n xs ++ drop (suc n) xs in take n l ++ x ∷ drop n l ≡ xs
  put_back n [] x e = ground (arith, e)
  put_back zero (y ∷ xs) x e = ap (λ z. z ∷ xs) (ground (arith, e))
  put_back (suc n) (y ∷ xs) x e = ap (λ l. y ∷ l) (put_back n xs x e)

  item_at-bound :
      (n : ℕ) (xs : List (Rewrite Prefix)) (x : Rewrite Prefix)
      → item_at n xs ≡ some x
      → n ≤ length (take n xs ++ drop (suc n) xs)
  item_at-bound n [] x e = ground (arith, e)
  item_at-bound zero (y ∷ xs) x e = omega arith
  item_at-bound (suc n) (y ∷ xs) x e = omega (arith, item_at-bound n xs x e)

  reinsert :
      (n : ℕ) (xs l : List (Rewrite Prefix)) (x : Rewrite Prefix)
      → item_at n xs ≡ some x
      → l ≡ take n xs ++ drop (suc n) xs
      → let at = if ltb (length l) n then length l else n in take at l ++ x ∷ drop at l ≡ xs
  reinsert n xs l x e eq =
      let same : (if ltb (length l) n then length l else n) ≡ n =
        ground (arith, ap length eq, item_at-bound n xs x e) in
      rw same (rw eq (put_back n xs x e))

  delete_found-IsSafe :
      (s : Store Prefix) (idx : ℕ) (o : Option (Rewrite Prefix)) (w : Write)
      → item_at idx s.items ≡ o
      → Changed s w (delete_found s idx o w)
  unfolding delete_found save
  delete_found-IsSafe s idx none w e = untouched-IsSafe s w
  delete_found-IsSafe s idx (some removed) w e =
      let less : List (Rewrite Prefix) = take idx s.items ++ drop (suc idx) s.items in
      let v = save_items-IsSaved (record s { items = less }) less w in
      if_intro (Changed s w) (save_items (record s { items = less }) less w).1
        (λ ok. record {
          kept = λ e. ground (arith, e, ok);
          path = v.path;
          in_step = λ _ _ p. v.done ok (sym v.path ∙ p) ∙ sym v.memory;
        })
        (λ bad. record {
          kept = λ _. reinsert idx s.items _ removed e v.memory;
          path = v.path;
          in_step = λ n before p.
              v.undone bad n
              ∙ before (sym v.path ∙ p)
              ∙ sym (reinsert idx s.items _ removed e v.memory);
        })

  delete_at-IsSafe : (s : Store Prefix) (w : Write) (at : Option ℕ) → Changed s w (delete_at s w at)
  unfolding delete_at
  delete_at-IsSafe s w none = untouched-IsSafe s w
  delete_at-IsSafe s w (some idx) = delete_found-IsSafe s idx (item_at idx s.items) w refl

  apply-IsSafe : (s : Store Prefix) (c : Call Prefix) (w : Write) → IsSafe s w (apply s c w)
  unfolding apply update delete
  apply-IsSafe s (replaces items) w = replace-IsSafe s items w
  apply-IsSafe s (adds item) w = add-IsSafe s item w
  apply-IsSafe s (updates item) w = update_at-IsSafe s item w (index_of item.id s.items)
  apply-IsSafe s (deletes id) w = delete_at-IsSafe s w (index_of id s.items)

  -- A change that reports an error has left the rewrites as they were, their order included.
  pub apply-rollback :
      (s : Store Prefix) (c : Call Prefix) (w : Write)
      → (apply s c w).1 ≡ false
      → (apply s c w).0.items ≡ s.items
  apply-rollback s c w = (apply-IsSafe s c w).kept

  -- Whatever changes are made, and whichever of them fail, the file holds the rewrites in memory,
  -- if it did at first and no failure came after the file had been renamed.
  pub apply_all-in_step :
      (s : Store Prefix) (calls : List (Call Prefix × Write))
      → s.has_path ≡ true
      → s.file ≡ s.items
      → All (λ call. call.1 ≢ unsynced) calls
      → (apply_all s calls).file ≡ (apply_all s calls).items
  apply_all-in_step s [] path before all = before
  apply_all-in_step s ((c, w) ∷ calls) path before all =
      let v = apply-IsSafe s c w in
      apply_all-in_step (apply s c w).0 calls (v.path ∙ path)
        (v.in_step all.0 (λ _. before) (v.path ∙ path)) all.1

  -- A failure after the renaming leaves a file with the new rewrite, which is not in memory.
  pub add-out_of_step :
      (s : Store Prefix) (item : Rewrite Prefix)
      → s.has_path ≡ true
      → ((add s item unsynced).1 ≡ false)
        × ((add s item unsynced).0.items ≡ s.items)
        × ((add s item unsynced).0.file ≡ s.items ++ item ∷ [])
  unfolding add save save_items write_file
  add-out_of_step s item path = rw path (refl, untake s.items _ item refl, refl)
