-- ===== src/KeyValues/Repeated.antt =====
-- KeyValuePairs in which a name stands more than once: the last pair beside the first, which SetVal
-- changes.
use cloudcompute.Base.{
  String, [], ◌∷◌, ◌++◌, Bool, true, false, ite, cond, String_discrete, ◌≡◌, refl, ◌||◌, ◌&&◌,
  arith, Option, none, some,
}
use cloudcompute.Manifest.{KeyValuePairs}
use cloudcompute.KeyValues.{has_key, set_val, merge}
use cloudcompute.KeyValues.Laws.{last_val, or_else, has_key-set_val}

abbrev pub is_repeated : KeyValuePairs → String → Bool
is_repeated [] key = false
is_repeated (kvp ∷ kvps) key =
    ite (String_discrete kvp.name key) (has_key kvps key) (is_repeated kvps key)

-- The first value, or where it is missing the second.
abbrev pub first_of : Option String → Option String → Option String
first_of (some v) other = some v
first_of none other = other

pub last_val-has_key :
    (kvps : KeyValuePairs) (key : String)
    → has_key kvps key ≡ false
    → (last_val kvps key ≡ none) × (is_repeated kvps key ≡ false)
unfolding has_key
last_val-has_key [] key h = (refl, refl)
last_val-has_key (kvp ∷ kvps) key h = ground (arith, last_val-has_key kvps key)

abbrev pub is_some : Option String → Bool
is_some none = false
is_some (some v) = true

pub last_val-is_some :
    (kvps : KeyValuePairs) (key : String) → is_some (last_val kvps key) ≡ has_key kvps key
unfolding has_key
last_val-is_some [] key = refl
last_val-is_some (kvp ∷ kvps) key = ground (arith, last_val-is_some kvps key)

pub has_key-append :
    (xs ys : KeyValuePairs) (key : String)
    → has_key (xs ++ ys) key ≡ (has_key xs key || has_key ys key)
unfolding has_key
has_key-append [] ys key = refl
has_key-append (kvp ∷ xs) ys key = ground (arith, has_key-append xs ys key)

last_val-set_val :
    (kvps : KeyValuePairs) (key val j : String)
    → (last_val (set_val kvps key val) j
        ≡ ite
            (String_discrete key j)
            (cond (is_repeated kvps j) (last_val kvps j) (some val))
            (last_val kvps j))
      × (is_repeated (set_val kvps key val) j ≡ is_repeated kvps j)
unfolding set_val has_key
last_val-set_val [] key val j = ground arith
last_val-set_val (kvp ∷ kvps) key val j = ground (
  arith,
  last_val-set_val kvps key val j,
  last_val-is_some kvps j,
  last_val-has_key kvps j,
  has_key-set_val kvps key val j,
)

-- Behind `Merge`, a name that stands twice keeps its last value, and another has the last value of
-- the argument, if that has one.
pub last_val-merge :
    (kvps more : KeyValuePairs) (j : String)
    → last_val (merge kvps more) j
      ≡ cond (is_repeated kvps j) (last_val kvps j) (first_of (last_val more j) (last_val kvps j))
unfolding merge
last_val-merge kvps [] j = ground arith
last_val-merge kvps (kvp ∷ more) j = ground (
  arith,
  last_val-merge (set_val kvps kvp.name kvp.value) more j,
  last_val-set_val kvps kvp.name kvp.value j,
)

pub last_val-append :
    (xs ys : KeyValuePairs) (j : String)
    → (last_val (xs ++ ys) j ≡ first_of (last_val ys j) (last_val xs j))
      × (is_repeated (xs ++ ys) j
          ≡ (is_repeated xs j || is_repeated ys j || has_key xs j && has_key ys j))
unfolding has_key
last_val-append [] ys j = ground arith
last_val-append (kvp ∷ xs) ys j = ground (
  arith,
  last_val-append xs ys j,
  last_val-is_some xs j,
  last_val-is_some ys j,
  last_val-has_key ys j,
  has_key-append xs ys j,
)

-- The last pair of four parts, of which the third does not have the name and may be left out.
pub last_parts :
    (env two event plugin : KeyValuePairs) (b : Bool) (key : String)
    → has_key event key ≡ false
    → (let all = cond b (env ++ two) (env ++ two ++ event) ++ plugin in
        (last_val all key
          ≡ first_of (last_val plugin key) (first_of (last_val two key) (last_val env key)))
        × (is_repeated all key ≡ (
            is_repeated env key
            || is_repeated two key
            || has_key env key && has_key two key
            || is_repeated plugin key
            || (has_key env key || has_key two key) && has_key plugin key)))
last_parts env two event plugin b key other = ground (
  arith,
  other,
  last_val-append (cond b (env ++ two) (env ++ two ++ event)) plugin key,
  last_val-append (env ++ two) event key,
  last_val-append env two key,
  last_val-has_key event key other,
  has_key-append env two key,
  has_key-append (env ++ two) event key,
)

-- A name that one of two parts has once: what the last pair says behind `Merge`.
pub last_once :
    (env two plugin more : KeyValuePairs) (key value : String)
    → first_of (last_val plugin key) (last_val two key) ≡ some value
    → (is_repeated two key || is_repeated plugin key) ≡ false
    → (has_key two key && has_key plugin key) ≡ false
    → (has_key two key || has_key plugin key) ≡ true
    → cond
        (is_repeated env key
          || is_repeated two key
          || has_key env key && has_key two key
          || is_repeated plugin key
          || (has_key env key || has_key two key) && has_key plugin key)
        (first_of (last_val plugin key) (first_of (last_val two key) (last_val env key)))
        (first_of
          (last_val more key)
          (first_of (last_val plugin key) (first_of (last_val two key) (last_val env key))))
      ≡ some (cond (has_key env key) value (or_else (last_val more key) value))
last_once env two plugin more key value mine once apart there = ground (
  arith,
  mine,
  once,
  apart,
  there,
  last_val-has_key env key,
  last_val-is_some two key,
  last_val-is_some plugin key,
)
