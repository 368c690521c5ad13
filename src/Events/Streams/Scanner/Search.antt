-- ===== src/Events/Streams/Scanner/Search.antt =====
-- bytes.Index: where a delimiter stands in a longer text, and the two sides of it.
use cloudcompute.Base.{
  ℕ, zero, suc, ◌+◌, ◌≤◌, ◌≡◌, refl, List, [], ◌∷◌, ◌++◌, true, false, Option, none, some, ◌⊎◌,
  arith, cond, inl, inr, Bool-cases, length, take, drop,
}
use cloudcompute.Events.Streams.Scanner.{has_prefix, next_index, index}

has_prefix-length : (s d : List ℕ) → has_prefix s d ≡ true → length s ≤ length d
unfolding has_prefix
has_prefix-length [] d h = omega arith
has_prefix-length (s ∷ ss) [] h = ground arith
has_prefix-length (s ∷ ss) (d ∷ ds) h = ground (arith, has_prefix-length ss ds)

has_prefix-append : (s d e : List ℕ) → length s ≤ length d → has_prefix s (d ++ e) ≡ has_prefix s d
unfolding has_prefix
has_prefix-append [] d e h = refl
has_prefix-append (s ∷ ss) [] e h = absurd (omega (arith, h))
has_prefix-append (s ∷ ss) (d ∷ ds) e h = rw (has_prefix-append ss ds e (omega (arith, h))) refl

next_index-some :
    (o : Option ℕ) (i : ℕ) → next_index o ≡ some i → (j : ℕ) × (o ≡ some j) × (i ≡ suc j)
next_index-some none i h = cc
next_index-some (some j) i h = (j, refl, ground arith)

-- Where the delimiter does not begin a text, it stands one byte later than in the rest.
later :
    (s : List ℕ) (b : ℕ) (bs : List ℕ) (i : ℕ)
    → has_prefix s (b ∷ bs) ≡ false
    → index s (b ∷ bs) ≡ some i
    → (j : ℕ) × (index s bs ≡ some j) × (i ≡ suc j)
unfolding index
later s b bs i n h = next_index-some (index s bs) i (ground arith)

pub index-bound : (s d : List ℕ) (i : ℕ) → index s d ≡ some i → i + length s ≤ length d
unfolding index
index-bound s [] i h = ground (arith, has_prefix-length s [])
index-bound s (d ∷ ds) i h = elim (Bool-cases (has_prefix s (d ∷ ds))) [
  | inl y ↦ ground (arith, has_prefix-length s (d ∷ ds) y)
  | inr n ↦ let (j, e, k) = later s d ds i n h in ground (arith, index-bound s ds j e, k)
]

index-nil : (d : List ℕ) → index [] d ≡ some 0
unfolding index has_prefix
index-nil [] = refl
index-nil (d ∷ ds) = refl

index-step :
    (s : List ℕ) (b : ℕ) (bs : List ℕ)
    → index s (b ∷ bs) ≡ cond (has_prefix s (b ∷ bs)) (some 0) (next_index (index s bs))
unfolding index
index-step s b bs = refl

pub index-append : (s d e : List ℕ) (i : ℕ) → index s d ≡ some i → index s (d ++ e) ≡ some i
index-append [] d e i h = rw (index-nil (d ++ e), ← h, index-nil d) refl
index-append (s ∷ ss) [] e i h = absurd (omega (arith, index-bound (s ∷ ss) [] i h))
index-append (s ∷ ss) (d ∷ ds) e i h =
    let same =
      has_prefix-append (s ∷ ss) (d ∷ ds) e (omega (arith, index-bound (s ∷ ss) (d ∷ ds) i h)) in
    elim (Bool-cases (has_prefix (s ∷ ss) (d ∷ ds))) [
      | inl y ↦ rw (index-step (s ∷ ss) d (ds ++ e), same, ← h, index-step (s ∷ ss) d ds, y) refl
      | inr n ↦
          let (j, e', k) = later (s ∷ ss) d ds i n h in
          rw (index-step (s ∷ ss) d (ds ++ e), same, n, index-append (s ∷ ss) ds e j e', k) refl
    ]

pub Option-cases : (o : Option ℕ) → (o ≡ none) ⊎ ((i : ℕ) × (o ≡ some i))
Option-cases none = inl refl
Option-cases (some i) = inr (i, refl)

pub some-injective : {i j : ℕ} → some i ≡ some j → i ≡ j
some-injective e = ground arith

pub index-prefix : (s b e : List ℕ) → index s (b ++ e) ≡ none → index s b ≡ none
index-prefix s b e h = elim (Option-cases (index s b)) [
  | inl missing ↦ missing
  | inr (i, found) ↦ absurd (ground (arith, h, index-append s b e i found))
]

-- Lists that begin another.
pub take-append : (n : ℕ) (b e : List ℕ) → n ≤ length b → take n (b ++ e) ≡ take n b
take-append zero b e h = refl
take-append (suc n) [] e h = absurd (omega (arith, h))
take-append (suc n) (x ∷ b) e h = rw (take-append n b e (omega (arith, h))) refl

pub drop-append : (n : ℕ) (b e : List ℕ) → n ≤ length b → drop n (b ++ e) ≡ drop n b ++ e
drop-append zero b e h = refl
drop-append (suc n) [] e h = absurd (omega (arith, h))
drop-append (suc n) (x ∷ b) e h = drop-append n b e (omega (arith, h))

pub take-length : (t r : List ℕ) → take (length t) (t ++ r) ≡ t
take-length [] r = refl
take-length (x ∷ t) r = rw (take-length t r) refl

pub drop-length : (t r : List ℕ) → drop (length t) (t ++ r) ≡ r
drop-length [] r = refl
drop-length (x ∷ t) r = drop-length t r

pub drop-all : (b : List ℕ) → drop (length b) b ≡ []
drop-all [] = refl
drop-all (x ∷ b) = drop-all b
