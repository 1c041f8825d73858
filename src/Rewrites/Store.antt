-- ===== src/Rewrites/Store.antt =====
-- The set of rewrites and its file (webgui/internal/rewrites/rewrites.go, Store). A rewrite comes
-- in as prepareRewrite made it; what the file system answers is an argument.
use resolix.Common.{
  ℕ, zero, suc, ◌-◌, Bool, true, false, Option, none, some, List, [], ◌∷◌, ◌++◌, length, take, drop,
  ltb, ◌==◌, nat_comparable, list_comparable, if◌then◌else◌, Text,
}
use resolix.Rewrites.Rule.{Rewrite}
pub use resolix.Files.{Write, written, failed, unsynced}

-- `file` is what the file at the path holds.
pub record Store (Prefix : Type 0) : Type 0 where
  pub has_path : Bool
  pub file : List (Rewrite Prefix)
  pub items : List (Rewrite Prefix)

-- What Update and Delete return: whether the id was found, and whether there was no error.
abbrev pub Answer : Type 0 → Type 0
Answer P = Store P × Bool × Bool

module _ {Prefix : Type 0} where
  unfoldable pub write_file : Store Prefix → List (Rewrite Prefix) → Write → Store Prefix × Bool
  write_file s items written = (record s { file = items }, true)
  write_file s items failed = (s, false)
  write_file s items unsynced = (record s { file = items }, false)

  -- saveItems; the flag says that there was no error.
  unfoldable pub save_items : Store Prefix → List (Rewrite Prefix) → Write → Store Prefix × Bool
  save_items s items w = if s.has_path then write_file s items w else (s, true)

  -- save
  unfoldable pub save : Store Prefix → Write → Store Prefix × Bool
  save s w = save_items s s.items w

  -- Replace
  unfoldable pub replace : Store Prefix → List (Rewrite Prefix) → Write → Store Prefix × Bool
  replace s validated w =
      let (s', ok) = save_items s validated w in
      if ok then (record s' { items = validated }, true) else (s', false)

  -- Add: the new item is taken back if it could not be saved.
  unfoldable pub add : Store Prefix → Rewrite Prefix → Write → Store Prefix × Bool
  add s item w =
      let (s', ok) = save (record s { items = s.items ++ item ∷ [] }) w in
      if ok then (s', true) else (record s' { items = take (length s'.items - 1) s'.items }, false)

  -- The index of the first rewrite with the id.
  abbrev pub index_of : Text → List (Rewrite Prefix) → Option ℕ
  index_of id [] = none
  index_of id (x ∷ xs) = if x.id == id then some 0 else next (index_of id xs)
    where
      next : Option ℕ → Option ℕ
      next none = none
      next (some n) = some (suc n)

  abbrev pub put_at : ℕ → Rewrite Prefix → List (Rewrite Prefix) → List (Rewrite Prefix)
  put_at n item [] = []
  put_at zero item (x ∷ xs) = item ∷ xs
  put_at (suc n) item (x ∷ xs) = x ∷ put_at n item xs

  abbrev pub item_at : ℕ → List (Rewrite Prefix) → Option (Rewrite Prefix)
  item_at n [] = none
  item_at zero (x ∷ xs) = some x
  item_at (suc n) (x ∷ xs) = item_at n xs

  unfoldable pub update_at : Store Prefix → Rewrite Prefix → Write → Option ℕ → Answer Prefix
  update_at s item w none = (s, false, true)
  update_at s item w (some idx) =
      let items = put_at idx item s.items in
      let (s', ok) = save_items s items w in
      if ok then (record s' { items = items }, true, true) else (s', true, false)

  -- Update
  unfoldable pub update : Store Prefix → Rewrite Prefix → Write → Answer Prefix
  update s item w = update_at s item w (index_of item.id s.items)

  unfoldable pub delete_found : Store Prefix → ℕ → Option (Rewrite Prefix) → Write → Answer Prefix
  delete_found s idx none w = (s, false, true)
  delete_found s idx (some removed) w =
      let (s', ok) = save (record s { items = take idx s.items ++ drop (suc idx) s.items }) w in
      let at = if ltb (length s'.items) idx then length s'.items else idx in
      if ok
      then (s', true, true)
      else (record s' { items = take at s'.items ++ removed ∷ drop at s'.items }, true, false)

  unfoldable pub delete_at : Store Prefix → Write → Option ℕ → Answer Prefix
  delete_at s w none = (s, false, true)
  delete_at s w (some idx) = delete_found s idx (item_at idx s.items) w

  -- Delete
  unfoldable pub delete : Store Prefix → Text → Write → Answer Prefix
  delete s id w = delete_at s w (index_of id s.items)
