-- ===== src/Forwarder/Persist.antt =====
-- The persisted backlog within its bound (webgui/internal/forwarder/backlog.go,
-- encodeBoundedBacklog). The JSON encoder of one item is a parameter.
use resolix.Common.{
  ℕ, zero, suc, ◌+◌, ◌-◌, ◌≤◌, ◌<◌, ◌≡◌, refl, ap, sym, ◌∙◌, Bool, true, false, Bool-cases, inl,
  inr, Option, none, some, drop-drop, take-append-drop, List, [], ◌∷◌, ◌++◌, arith, length,
  length-append, take, drop, if◌then◌else◌, ltb, Text, bytes, if_intro,
}
use mathlib.Core.List.{map, append-nil}
use mathlib.Core.Path.{subst}
use resolix.Forwarder.Queue.{BacklogItem}

-- The version of the format is written as its digit.
abbrev pub header : Text
header = bytes "{\"version\":1,\"items\":["

abbrev pub footer : Text
footer = bytes "]}"

-- The lengths, with a comma between two items.
abbrev pub total_of : ℕ → Bool → List Text → ℕ
total_of total first [] = total
total_of total first (raw ∷ raws) =
    total_of (total + length raw + (if first then 0 else 1)) false raws

abbrev pub joined : Bool → List Text → Text
joined first [] = []
joined first (raw ∷ raws) = (if first then [] else bytes ",") ++ raw ++ joined false raws

-- The loop that drops the oldest queued items: `n` items are left, the list are the queued ones
-- among them. It gives the total it comes to and the number it dropped.
unfoldable pub trim_oldest : ℕ → ℕ → ℕ → List Text → ℕ × ℕ
trim_oldest max_bytes total n [] = (total, 0)
trim_oldest max_bytes total n (raw ∷ raws) =
    let (left, trimmed) =
      trim_oldest max_bytes (total - length raw - (if ltb 1 n then 1 else 0)) (n - 1) raws in
    if ltb max_bytes total then (left, suc trimmed) else (total, 0)

-- The bytes to write, with the sequence numbers of what they leave out, or one of the two errors.
pub data Encoded : Type 0 where
  unencodable : Encoded
  too_small : Encoded
  encoded : Text → List ℕ → Encoded

abbrev pub document : List Text → Text
document raws = header ++ joined true raws ++ footer

-- A failing item ends the encoding.
abbrev pub add_raw : Option Text → Option (List Text) → Option (List Text)
add_raw none raws = none
add_raw (some raw) none = none
add_raw (some raw) (some raws) = some (raw ∷ raws)

module _ {E : Type 0} (encode : BacklogItem E → Option Text) where
  abbrev pub encode_all : List (BacklogItem E) → Option (List Text)
  encode_all [] = some []
  encode_all (x ∷ xs) = add_raw (encode x) (encode_all xs)

  unfoldable pub encode_raws : List (BacklogItem E) → ℕ → ℕ → Option (List Text) → Encoded
  encode_raws items in_flight max_bytes none = unencodable
  encode_raws items in_flight max_bytes (some raws) =
      let (total, trimmed) =
        trim_oldest max_bytes (total_of (length header + length footer) true raws) (length items)
          (drop in_flight raws) in
      if ltb max_bytes total
      then too_small
      else encoded (document (take in_flight raws ++ drop (in_flight + trimmed) raws))
          (map (λ x. x.seq) (take trimmed (drop in_flight items)))

  -- encodeBoundedBacklog
  unfoldable pub encode_bounded : List (BacklogItem E) → ℕ → ℕ → Encoded
  encode_bounded items in_flight max_bytes =
      encode_raws items in_flight max_bytes (encode_all items)

-- How many bytes the documents of some items take.
abbrev size_of : List Text → ℕ
size_of raws = length (document raws)

total_of-joined :
    (total : ℕ) (first : Bool) (raws : List Text)
    → total_of total first raws ≡ total + length (joined first raws)
total_of-joined total first [] = omega arith
total_of-joined total first (raw ∷ raws) = elim (Bool-cases first) [
  | inl e ↦ rw e (
      omega (
        arith,
        total_of-joined (total + length raw + 0) false raws,
        length-append raw (joined false raws),
      ))
  | inr e ↦ rw e (
      omega (
        arith,
        total_of-joined (total + length raw + 1) false raws,
        length-append raw (joined false raws),
      ))
]

total_of-document :
    (raws : List Text) → total_of (length header + length footer) true raws ≡ length (document raws)
total_of-document raws = omega (
  arith,
  total_of-joined (length header + length footer) true raws,
  length-append header (joined true raws ++ footer),
  length-append (joined true raws) footer,
)

abbrev lengths : List Text → ℕ
lengths [] = 0
lengths (raw ∷ raws) = length raw + lengths raws

lengths-append : (xs ys : List Text) → lengths (xs ++ ys) ≡ lengths xs + lengths ys
lengths-append [] ys = omega arith
lengths-append (x ∷ xs) ys = omega (arith, lengths-append xs ys)

length-joined : (raws : List Text) → length (joined false raws) ≡ lengths raws + length raws
length-joined [] = omega arith
length-joined (raw ∷ raws) =
    omega (arith, length-joined raws, length-append raw (joined false raws))

size_of-lengths : (raws : List Text) → size_of raws ≡ lengths raws + (length raws - 1) + size_of []
size_of-lengths [] = omega arith
size_of-lengths (raw ∷ raws) = omega (
  arith,
  length-append header (joined true (raw ∷ raws) ++ footer),
  length-append (joined true (raw ∷ raws)) footer,
  length-append header footer,
  length-append raw (joined false raws),
  length-joined raws,
)

-- What one item less means for the length of the document.
size_of-drop :
    (pre : List Text) (raw : Text) (raws : List Text)
    → size_of (pre ++ raw ∷ raws)
        - length raw
        - (if ltb 1 (length (pre ++ raw ∷ raws)) then 1 else 0)
      ≡ size_of (pre ++ raws)
size_of-drop pre raw raws = ground (
  arith,
  size_of-lengths (pre ++ raw ∷ raws),
  size_of-lengths (pre ++ raws),
  lengths-append pre (raw ∷ raws),
  lengths-append pre raws,
  length-append pre (raw ∷ raws),
  length-append pre raws,
)

-- The loop drops as few items as it can.
pub record IsLeast (max_bytes : ℕ) (pre raws : List Text) (r : ℕ × ℕ) : Type 0 where
  pub total : r.0 ≡ size_of (pre ++ drop r.1 raws)
  pub last : max_bytes < r.0 → drop r.1 raws ≡ []
  pub least : (fewer : ℕ) → fewer < r.1 → max_bytes < size_of (pre ++ drop fewer raws)

length_less :
    (pre : List Text) (raw : Text) (raws : List Text)
    → length (pre ++ raw ∷ raws) - 1 ≡ length (pre ++ raws)
length_less pre raw raws = omega (arith, length-append pre (raw ∷ raws), length-append pre raws)

dropped_one :
    (max_bytes : ℕ) (pre : List Text) (raw : Text) (raws : List Text) (r : ℕ × ℕ)
    → max_bytes < size_of (pre ++ raw ∷ raws)
    → IsLeast max_bytes pre raws r
    → IsLeast max_bytes pre (raw ∷ raws) (r.0, suc r.1)
dropped_one max_bytes pre raw raws r over v = record {
  total = v.total;
  last = v.last;
  least = elim [ zero ↦ λ _. over | suc fewer ↦ λ p. v.least fewer (omega (arith, p)) ];
}

trim_oldest-IsLeast :
    (max_bytes : ℕ) (pre raws : List Text)
    → IsLeast max_bytes pre raws
        (trim_oldest max_bytes (size_of (pre ++ raws)) (length (pre ++ raws)) raws)
unfolding trim_oldest
trim_oldest-IsLeast max_bytes pre [] = record {
  total = refl;
  last = λ _. refl;
  least = λ fewer p. absurd (omega arith);
}
trim_oldest-IsLeast max_bytes pre (raw ∷ raws) =
    elim (Bool-cases (ltb max_bytes (size_of (pre ++ raw ∷ raws)))) [
      | inl over ↦
          rw (over, size_of-drop pre raw raws, length_less pre raw raws)
            (dropped_one max_bytes pre raw raws _ (ground arith)
              (trim_oldest-IsLeast max_bytes pre raws))
      | inr fits ↦ rw fits (record {
        total = refl;
        last = λ p. absurd (ground arith);
        least = λ fewer p. absurd (omega arith);
      })
    ]

module _ {E : Type 0} (encode : BacklogItem E → Option Text) where
  -- What encodeBoundedBacklog promises: the batch in flight is kept, the oldest queued items are
  -- left out, as few as the bound needs, and their sequence numbers are returned. It gives up only
  -- if an item has no encoding, or the batch in flight alone takes more bytes.
  abbrev pub Promises : List (BacklogItem E) → ℕ → ℕ → Option (List Text) → Encoded → Type 0
  Promises items in_flight max_bytes raws unencodable = raws ≡ none
  Promises items in_flight max_bytes none too_small = ⊥
  Promises items in_flight max_bytes (some raws) too_small =
      max_bytes < length (document (take in_flight raws))
  Promises items in_flight max_bytes none (encoded text seqs) = ⊥
  Promises items in_flight max_bytes (some raws) (encoded text seqs) =
      (n : ℕ) × (text ≡ document (take in_flight raws ++ drop n (drop in_flight raws)))
      × (length text ≤ max_bytes)
      × (seqs ≡ map (λ x. x.seq) (take n (drop in_flight items)))
      × ((fewer : ℕ)
          → fewer < n
          → max_bytes < length (document (take in_flight raws ++ drop fewer (drop in_flight raws))))

  add_raw-length :
      (o : Option Text) (os : Option (List Text)) (n : ℕ) (raws : List Text)
      → ((rest : List Text) → os ≡ some rest → length rest ≡ n)
      → add_raw o os ≡ some raws
      → length raws ≡ suc n
  add_raw-length none os n raws ih e = ground (arith, e)
  add_raw-length (some raw) none n raws ih e = ground (arith, e)
  add_raw-length (some raw) (some rest) n raws ih e = ground (arith, ih rest refl, e)

  encode_all-length :
      (items : List (BacklogItem E)) (raws : List Text)
      → encode_all encode items ≡ some raws
      → length raws ≡ length items
  encode_all-length [] raws e = ground (arith, e)
  encode_all-length (x ∷ xs) raws e =
      add_raw-length (encode x) (encode_all encode xs) (length xs) raws
        (λ rest. encode_all-length xs rest) e

  encode_raws-Promises :
      (items : List (BacklogItem E)) (in_flight max_bytes : ℕ) (raws : Option (List Text))
      → ((rs : List Text) → raws ≡ some rs → length rs ≡ length items)
      → Promises items in_flight max_bytes raws (encode_raws encode items in_flight max_bytes raws)
  unfolding encode_raws
  encode_raws-Promises items in_flight max_bytes none same = refl
  encode_raws-Promises items in_flight max_bytes (some raws) same =
      if_intro (Promises items in_flight max_bytes (some raws)) (ltb max_bytes r.0)
        (λ over.
          let left =
            v.total
            ∙ ap (λ l. size_of (take in_flight raws ++ l)) (v.last (above over))
            ∙ ap size_of (append-nil (take in_flight raws)) in
          rw (← left) (above over))
        (λ fits. (
          r.1,
          ap (λ l. document (take in_flight raws ++ l)) (sym (drop-drop in_flight r.1 raws)),
          rw (← drop-drop in_flight r.1 raws, ← v.total) (ground (arith, fits)),
          refl,
          v.least,
        ))
    where
      r : ℕ × ℕ
      r =
          trim_oldest max_bytes (total_of (length header + length footer) true raws) (length items)
            (drop in_flight raws)

      v : IsLeast max_bytes (take in_flight raws) (drop in_flight raws) r
      v =
          let whole = take-append-drop in_flight raws in
          let size = total_of-document raws in
          let least = trim_oldest-IsLeast max_bytes (take in_flight raws) (drop in_flight raws) in
          subst
            (λ n. IsLeast max_bytes (take in_flight raws) (drop in_flight raws) (
              trim_oldest max_bytes (total_of (length header + length footer) true raws) n
                (drop in_flight raws)))
            (ap length whole ∙ same raws refl)
            (subst
              (λ t. IsLeast max_bytes (take in_flight raws) (drop in_flight raws) (
                trim_oldest max_bytes t (length (take in_flight raws ++ drop in_flight raws))
                  (drop in_flight raws)))
              (ap size_of whole ∙ sym size) least)

      above : ltb max_bytes r.0 ≡ true → max_bytes < r.0
      above over = ground (arith, over)

  -- Whatever the items, the number in flight and the bound are: the bytes that are written are the
  -- document of the batch in flight and the queued items without the oldest `n`, they are within
  -- the bound, fewer than `n` left out would not be, and the sequence numbers returned are those of
  -- the `n` items. The errors come only of an item that has no encoding and of a batch in flight
  -- that exceeds the bound alone.
  pub encode_bounded-Promises :
      (items : List (BacklogItem E)) (in_flight max_bytes : ℕ)
      → Promises items in_flight max_bytes
          (encode_all encode items)
          (encode_bounded encode items in_flight max_bytes)
  unfolding encode_bounded
  encode_bounded-Promises items in_flight max_bytes =
      encode_raws-Promises items in_flight max_bytes (encode_all encode items)
        (encode_all-length items)
