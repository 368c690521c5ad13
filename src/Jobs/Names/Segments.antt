-- ===== src/Jobs/Names/Segments.antt =====
-- The guids of a text that is written in segments with `_` between them.
use Prim.Native.Char.{Char}
use cloudcompute.Base.{
  ℕ, zero, suc, ◌≤◌, ◌≡◌, refl, ◌∙◌, String, List, [], ◌∷◌, ◌++◌, Bool, true, false, arith, length,
  Bool-cases, inl, inr, some,
}
use cloudcompute.Base.Text.{join}
use cloudcompute.Jobs.Names.{is_hex, guid_shape, matches, take_text, find_all, guids_of, parse}

abbrev pub text_length : String → ℕ
text_length String.[] = 0
text_length (String.◌∷◌ c s) = suc (text_length s)

-- The text of a uuid: it has the shape of a guid, and no more.
pub record IsGuid (s : String) : Type 0 where
  pub has_shape : matches guid_shape s ≡ true
  pub has_size : text_length s ≡ 36

matches-length :
    (shape : List Bool) (s : String) → matches shape s ≡ true → length shape ≤ text_length s
unfolding matches
matches-length [] s h = omega arith
matches-length (b ∷ shape) String.[] h = cc
matches-length (b ∷ shape) (String.◌∷◌ c s) h = ground (arith, matches-length shape s)

-- A match does not go on behind a `_`.
matches-segment :
    (shape : List Bool) (s rest : String) → matches shape (join s (join "_" rest)) ≡ matches shape s
unfolding matches is_hex
matches-segment [] s rest = refl
matches-segment (true ∷ shape) String.[] rest = refl
matches-segment (false ∷ shape) String.[] rest = refl
matches-segment (b ∷ shape) (String.◌∷◌ c s) rest = rw (matches-segment shape s rest) refl

take_text-segment :
    (n : ℕ) (s rest : String) → n ≤ text_length s → take_text n (join s rest) ≡ take_text n s
unfolding take_text
take_text-segment zero s rest h = refl
take_text-segment (suc n) String.[] rest h = absurd (omega (arith, h))
take_text-segment (suc n) (String.◌∷◌ c s) rest h =
    rw (take_text-segment n s rest (omega (arith, h))) refl

find_all-yes :
    (shape : List Bool) (size : ℕ) (c : Char) (s : String)
    → matches shape (String.◌∷◌ c s) ≡ true
    → find_all shape size 0 (String.◌∷◌ c s)
      ≡ take_text (suc size) (String.◌∷◌ c s) ∷ find_all shape size size s
unfolding find_all take_text
find_all-yes shape size c s h = rw (find_all, h) refl

find_all-no :
    (shape : List Bool) (size : ℕ) (c : Char) (s : String)
    → matches shape (String.◌∷◌ c s) ≡ false
    → find_all shape size 0 (String.◌∷◌ c s) ≡ find_all shape size 0 s
unfolding find_all
find_all-no shape size c s h = rw (find_all, h) refl

find_all-later :
    (shape : List Bool) (size skip : ℕ) (c : Char) (s : String)
    → find_all shape size (suc skip) (String.◌∷◌ c s) ≡ find_all shape size skip s
unfolding find_all
find_all-later shape size skip c s = refl

matches-empty : (shape : List Bool) (size : ℕ) → length shape ≡ suc size → matches shape "" ≡ false
unfolding matches
matches-empty [] size h = absurd (omega (arith, h))
matches-empty (b ∷ shape) size h = refl

-- The matches of a segment come first, then those of the text behind it.
find_all-segment :
    (shape : List Bool) (size skip : ℕ) (s rest : String)
    → length shape ≡ suc size
    → skip ≤ text_length s
    → find_all shape size skip (join s (join "_" rest))
      ≡ find_all shape size skip s ++ find_all shape size 0 rest
find_all-segment shape size zero String.[] rest l h =
    let no = matches-segment shape "" rest ∙ matches-empty shape size l in
    unfold find_all in rw no refl
find_all-segment shape size (suc skip) String.[] rest l h = absurd (omega (arith, h))
find_all-segment shape size (suc skip) (String.◌∷◌ c s) rest l h =
    rw
      (
        find_all-later shape size skip c s,
        find_all-later shape size skip c (join s (join "_" rest)),
      )
      (find_all-segment shape size skip s rest l (omega (arith, h)))
find_all-segment shape size zero (String.◌∷◌ c s) rest l h =
    let same = matches-segment shape (String.◌∷◌ c s) rest in
    elim (Bool-cases (matches shape (String.◌∷◌ c s))) [
      | inl y ↦
          let size_ok = matches-length shape (String.◌∷◌ c s) y in
          rw
            (
              find_all-yes shape size c s y,
              find_all-yes shape size c (join s (join "_" rest)) (rw same y),
              take_text-segment (suc size) (String.◌∷◌ c s) (join "_" rest)
                  (omega (arith, size_ok, l)),
              find_all-segment shape size size s rest l (omega (arith, size_ok, l)),
            )
            refl
      | inr n ↦
          rw
            (
              find_all-no shape size c s n,
              find_all-no shape size c (join s (join "_" rest)) (rw same n),
              find_all-segment shape size 0 s rest l (omega arith),
            )
            refl
    ]

find_all-skip :
    (shape : List Bool) (size skip : ℕ) (s : String)
    → text_length s ≤ skip
    → find_all shape size skip s ≡ []
unfolding find_all
find_all-skip shape size skip String.[] h = refl
find_all-skip shape size zero (String.◌∷◌ c s) h = absurd (omega (arith, h))
find_all-skip shape size (suc skip) (String.◌∷◌ c s) h =
    find_all-skip shape size skip s (omega (arith, h))

take_text-all : (n : ℕ) (s : String) → text_length s ≤ n → take_text n s ≡ s
unfolding take_text
take_text-all zero String.[] h = refl
take_text-all zero (String.◌∷◌ c s) h = absurd (omega (arith, h))
take_text-all (suc n) String.[] h = refl
take_text-all (suc n) (String.◌∷◌ c s) h = rw (take_text-all n s (omega (arith, h))) refl

-- A uuid is the one guid of its text.
pub guids_of-IsGuid : (s : String) → IsGuid s → guids_of s ≡ s ∷ []
unfolding guids_of
guids_of-IsGuid String.[] h = absurd (omega (arith, h.has_size))
guids_of-IsGuid (String.◌∷◌ c s) h =
    rw
      (
        find_all-yes guid_shape 35 c s h.has_shape,
        take_text-all 36 (String.◌∷◌ c s) (omega (arith, h.has_size)),
        find_all-skip guid_shape 35 35 s (omega (arith, h.has_size)),
      )
      refl

-- The guids of a segment come before those behind it.
pub guids_of-segment :
    (s rest : String) → guids_of (join s (join "_" rest)) ≡ guids_of s ++ guids_of rest
unfolding guids_of
guids_of-segment s rest =
    find_all-segment guid_shape 35 0 s rest (unfold guid_shape in refl) (omega arith)

pub parse-guids_of :
    (name compute event job : String)
    → guids_of name ≡ compute ∷ event ∷ job ∷ []
    → parse name ≡ some (record { compute = compute; event = event; job = job })
unfolding parse
parse-guids_of name compute event job h = rw h refl
