-- ===== src/Rewrites/Saving.antt =====
-- What saving keeps: the rewrites on an error, and the file in step (webgui/internal/rewrites/rewrites.go,
-- saveItems, Replace and Add).
use resolix.Common.{
  ◌-◌, ◌≡◌, ◌≢◌, refl, ap, ap₂, sym, ◌∙◌, Bool, true, false, List, [], ◌∷◌, ◌++◌, length,
  length-append, take, nat_comparable, list_comparable, arith, if_intro,
}
use resolix.Rewrites.Rule.{Rewrite}
use resolix.Rewrites.Store.{
  Store, Write, written, failed, unsynced, write_file, save_items, save, replace, add,
}

module _ {Prefix : Type 0} where
  -- With the state before it: an error leaves the items, and the file is in step with the items
  -- unless the directory was not synchronised.
  pub record IsSafe (s : Store Prefix) (w : Write) (r : Store Prefix × Bool) : Type 0 where
    pub kept : r.1 ≡ false → r.0.items ≡ s.items
    pub path : r.0.has_path ≡ s.has_path
    pub in_step :
        w ≢ unsynced
        → (s.has_path ≡ true → s.file ≡ s.items)
        → r.0.has_path ≡ true
        → r.0.file ≡ r.0.items

  -- What saveItems does, by what the file system answered.
  pub record IsSaved (s : Store Prefix) (items : List (Rewrite Prefix)) (w : Write)
      (r : Store Prefix × Bool) : Type 0 where
    pub memory : r.0.items ≡ s.items
    pub path : r.0.has_path ≡ s.has_path
    pub done : r.1 ≡ true → s.has_path ≡ true → r.0.file ≡ items
    pub undone : r.1 ≡ false → w ≢ unsynced → r.0.file ≡ s.file

  pub save_items-IsSaved :
      (s : Store Prefix) (items : List (Rewrite Prefix)) (w : Write)
      → IsSaved s items w (save_items s items w)
  unfolding save_items write_file
  save_items-IsSaved s items w =
      if_intro (IsSaved s items w) s.has_path (λ _. answer w)
        (λ no_path. record {
          memory = refl;
          path = refl;
          done = λ _ p. ground (arith, no_path, p);
          undone = λ e _. ground (arith, e);
        })
    where
      answer : (w : Write) → IsSaved s items w (write_file s items w)
      answer written = record {
        memory = refl;
        path = refl;
        done = λ _ _. refl;
        undone = λ e _. ground (arith, e);
      }
      answer failed = record {
        memory = refl;
        path = refl;
        done = λ e _. ground (arith, e);
        undone = λ _ _. refl;
      }
      answer unsynced = record {
        memory = refl;
        path = refl;
        done = λ e _. ground (arith, e);
        undone = λ _ n. absurd (n refl);
      }

  pub replace-IsSafe :
      (s : Store Prefix) (items : List (Rewrite Prefix)) (w : Write)
      → IsSafe s w (replace s items w)
  unfolding replace
  replace-IsSafe s items w =
      let v = save_items-IsSaved s items w in
      let s' = (save_items s items w).0 in
      if_intro (IsSafe s w) (save_items s items w).1
        (λ ok. record {
          kept = λ e. ground (arith, e);
          path = v.path;
          in_step = λ _ _ p. v.done ok (sym v.path ∙ p);
        })
        (λ bad. record {
          kept = λ _. v.memory;
          path = v.path;
          in_step = λ n before p. v.undone bad n ∙ before (sym v.path ∙ p) ∙ sym v.memory;
        })

  take-snoc :
      (xs : List (Rewrite Prefix)) (x : Rewrite Prefix) → take (length xs) (xs ++ x ∷ []) ≡ xs
  take-snoc [] x = refl
  take-snoc (y ∷ xs) x = ap (λ l. y ∷ l) (take-snoc xs x)

  pub untake :
      (xs l : List (Rewrite Prefix)) (x : Rewrite Prefix)
      → l ≡ xs ++ x ∷ []
      → take (length l - 1) l ≡ xs
  untake xs l x e =
      ap₂ take (omega (arith, ap length e, length-append xs (x ∷ []))) e ∙ take-snoc xs x

  pub add-IsSafe :
      (s : Store Prefix) (item : Rewrite Prefix) (w : Write) → IsSafe s w (add s item w)
  unfolding add save
  add-IsSafe s item w =
      let more : List (Rewrite Prefix) = s.items ++ item ∷ [] in
      let v = save_items-IsSaved (record s { items = more }) more w in
      if_intro (IsSafe s w) (save_items (record s { items = more }) more w).1
        (λ ok. record {
          kept = λ e. ground (arith, e, ok);
          path = v.path;
          in_step = λ _ _ p. v.done ok (sym v.path ∙ p) ∙ sym v.memory;
        })
        (λ bad. record {
          kept = λ _. untake s.items _ item v.memory;
          path = v.path;
          in_step = λ n before p.
              v.undone bad n ∙ before (sym v.path ∙ p) ∙ sym (untake s.items _ item v.memory);
        })
