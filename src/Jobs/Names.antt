-- ===== src/Jobs/Names.antt =====
-- compute-provider.go: JobNameParts.Parse. A match of its regular expression has 36 characters:
-- hexadecimal digits in groups of 8, 4, 4, 4 and 12, with hyphens between them.
pub mod Segments
use Prim.Native.Char.{Char, code}
use cloudcompute.Base.{
  ℕ, zero, suc, String, List, [], ◌∷◌, ◌++◌, Bool, true, false, ◌&&◌, ◌||◌, Option, none, some,
  cond, leb, ◌==◌, replicate,
}
use cloudcompute.Jobs.{JobNameParts}

unfoldable pub is_hex : ℕ → Bool
is_hex c = leb 48 c && leb c 57 || leb 97 c && leb c 102 || leb 65 c && leb c 70

-- The groups of the regular expression: a digit where it is true, a hyphen where it is false.
unfoldable pub guid_shape : List Bool
guid_shape =
    replicate 8 true
    ++ false ∷ replicate 4 true
    ++ false ∷ replicate 4 true
    ++ false ∷ replicate 4 true
    ++ false ∷ replicate 12 true

abbrev pub fits : Bool → ℕ → Bool
fits true c = is_hex c
fits false c = c == 45

-- Does a text begin with the shape?
unfoldable pub matches : List Bool → String → Bool
unfolding is_hex
matches [] s = true
matches (b ∷ shape) String.[] = false
matches (b ∷ shape) (String.◌∷◌ c s) = fits b (code c) && matches shape s

unfoldable pub take_text : ℕ → String → String
take_text zero s = ""
take_text (suc n) String.[] = ""
take_text (suc n) (String.◌∷◌ c s) = String.◌∷◌ c (take_text n s)

-- `FindAllString(text, -1)` for a shape of `suc size` characters, behind `skip` characters of the
-- last match.
unfoldable pub find_all : List Bool → ℕ → ℕ → String → List String
unfolding matches take_text
find_all shape size skip String.[] = []
find_all shape size (suc skip) (String.◌∷◌ c s) = find_all shape size skip s
find_all shape size zero (String.◌∷◌ c s) =
    let found = find_all shape size size s in
    let rest = find_all shape size zero s in
    cond (matches shape (String.◌∷◌ c s)) (take_text (suc size) (String.◌∷◌ c s) ∷ found) rest

unfoldable pub guids_of : String → List String
unfolding find_all guid_shape
guids_of text = find_all guid_shape 35 0 text

-- `none` for the error on a name that does not hold three guids.
abbrev pub parts_of : List String → Option JobNameParts
parts_of (compute ∷ event ∷ job ∷ []) =
    some (record { compute = compute; event = event; job = job })
parts_of _ = none

unfoldable pub parse : String → Option JobNameParts
unfolding guids_of
parse name = parts_of (guids_of name)
