-- ===== src/Forwarder/Held.antt =====
-- Lists of queued items: their bytes, their order, and what the loops of the queue do to them.
use native.Mathlib.Nat.{add_assoc}
use resolix.Common.{
  ◌∙◌, ℕ, ◌+◌, ◌-◌, ◌≤◌, ◌<◌, ◌≡◌, Bool-cases, inl, inr, List, [], ◌∷◌, ◌++◌, arith, length,
}
use resolix.Forwarder.Queue.{BacklogItem, total_bytes, release, has_seq, trim_items}

module _ {E : Type 0} where
  pub total_bytes-append :
      (xs ys : List (BacklogItem E)) → total_bytes (xs ++ ys) ≡ total_bytes xs + total_bytes ys
  total_bytes-append [] ys = omega arith
  total_bytes-append (x ∷ xs) ys = omega (arith, total_bytes-append xs ys)

  pub release_lem :
      (total : ℕ) (xs : List (BacklogItem E)) → release total xs ≡ total - total_bytes xs
  unfolding release
  release_lem total [] = omega arith
  release_lem total (x ∷ xs) = omega (arith, release_lem (total - x.size) xs)

  -- Sequence numbers rise along the list, from above `n` up to at most `m`.
  abbrev pub Between : ℕ → ℕ → List (BacklogItem E) → Type 0
  Between n m [] = n ≤ m
  Between n m (x ∷ xs) = (n < x.seq) × Between x.seq m xs

  pub Between-widen :
      (n n' m m' : ℕ) (xs : List (BacklogItem E))
      → n' ≤ n
      → m ≤ m'
      → Between n m xs
      → Between n' m' xs
  Between-widen n n' m m' [] p q b = omega arith
  Between-widen n n' m m' (x ∷ xs) p q b =
      (omega arith, Between-widen x.seq x.seq m m' xs (omega arith) q b.1)

  pub Between-snoc :
      (n m : ℕ) (xs : List (BacklogItem E)) (x : BacklogItem E)
      → x.seq ≡ m + 1
      → Between n m xs
      → Between n (m + 1) (xs ++ x ∷ [])
  Between-snoc n m [] x p b = (omega arith, omega arith)
  Between-snoc n m (y ∷ xs) x p b = (b.0, Between-snoc y.seq m xs x p b.1)

  pub Between-tail :
      (n m : ℕ) (xs ys : List (BacklogItem E)) → Between n m (xs ++ ys) → Between n m ys
  Between-tail n m [] ys b = b
  Between-tail n m (x ∷ xs) ys b =
      Between-widen x.seq n m m ys (omega arith) (omega arith) (Between-tail x.seq m xs ys b.1)

  -- The trimmed list, with a prefix that is left alone.
  pub trim-Between :
      (seqs : List ℕ) (n m total : ℕ) (xs : List (BacklogItem E))
      → Between n m xs
      → Between n m (trim_items seqs total xs).0
  unfolding trim_items
  trim-Between seqs n m total [] b = b
  trim-Between seqs n m total (x ∷ xs) b = elim (Bool-cases (has_seq x.seq seqs)) [
    | inl gone ↦ rw gone (
        trim-Between seqs n m (total - x.size) xs
          (Between-widen x.seq n m m xs (omega arith) (omega arith) b.1))
    | inr kept ↦ rw kept (b.0, trim-Between seqs x.seq m total xs b.1)
  ]

  pub trim-prefix-Between :
      (seqs : List ℕ) (n m total : ℕ) (ps xs : List (BacklogItem E))
      → Between n m (ps ++ xs)
      → Between n m (ps ++ (trim_items seqs total xs).0)
  trim-prefix-Between seqs n m total [] xs b = trim-Between seqs n m total xs b
  trim-prefix-Between seqs n m total (p ∷ ps) xs b =
      (b.0, trim-prefix-Between seqs p.seq m total ps xs b.1)

  pub trim-bytes :
      (seqs : List ℕ) (rest total : ℕ) (xs : List (BacklogItem E))
      → total ≡ rest + total_bytes xs
      → (trim_items seqs total xs).1 ≡ rest + total_bytes (trim_items seqs total xs).0
  unfolding trim_items
  trim-bytes seqs rest total [] h = h
  trim-bytes seqs rest total (x ∷ xs) h = elim (Bool-cases (has_seq x.seq seqs)) [
    | inl gone ↦ rw gone (trim-bytes seqs rest (total - x.size) xs (omega arith))
    | inr kept ↦ rw kept (trim-bytes seqs (rest + x.size) total xs (omega arith) ∙ add_assoc _ _ _)
  ]

  pub trim-bytes-le :
      (seqs : List ℕ) (total : ℕ) (xs : List (BacklogItem E)) → (trim_items seqs total xs).1 ≤ total
  unfolding trim_items
  trim-bytes-le seqs total [] = omega arith
  trim-bytes-le seqs total (x ∷ xs) =
      ground (arith, trim-bytes-le seqs total xs, trim-bytes-le seqs (total - x.size) xs)

  pub trim-length :
      (seqs : List ℕ) (total : ℕ) (xs : List (BacklogItem E))
      → length (trim_items seqs total xs).0 + (trim_items seqs total xs).2 ≡ length xs
  unfolding trim_items
  trim-length seqs total [] = omega arith
  trim-length seqs total (x ∷ xs) =
      ground (arith, trim-length seqs total xs, trim-length seqs (total - x.size) xs)
