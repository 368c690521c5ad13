-- ===== src/Argo/Patches/Replacing.antt =====
-- spec-overrides.go: ReplaceAll on a text that is put together from pieces.
use cloudcompute.Base.{
  ℕ, zero, suc, ◌-◌, ◌≤◌, String, ◌≡◌, refl, Bool, true, false, cond, not, ◌&&◌, ◌||◌, arith,
  Bool-cases, inl, inr,
}
use cloudcompute.Base.Text.{join, text_length}
use cloudcompute.Argo.Patches.{starts_with, put, replace_from}

-- Whether a text settles, whatever stands behind it, that the key starts there.
abbrev is_settled : String → String → Bool
is_settled key s = starts_with key s || not (starts_with s key)

-- No occurrence of the key begins in this text and ends behind it.
abbrev pub is_closed : String → String → Bool
is_closed key String.[] = true
is_closed key (String.◌∷◌ c s) = is_settled key (String.◌∷◌ c s) && is_closed key s

join_assoc : (s t u : String) → join (join s t) u ≡ join s (join t u)
join_assoc String.[] t u = refl
join_assoc (String.◌∷◌ c s) t u = rw (join_assoc s t u) refl

put-join :
    (b : Bool) (by : String) (c : _) (s t : String) → put b by c (join s t) ≡ join (put b by c s) t
put-join true by c s t = rw (join_assoc by s t) refl
put-join false by c s t = refl

starts_with-join :
    (key s t : String) → is_settled key s ≡ true → starts_with key (join s t) ≡ starts_with key s
starts_with-join String.[] s t h = refl
starts_with-join (String.◌∷◌ c key) String.[] t h = cc
starts_with-join (String.◌∷◌ c key) (String.◌∷◌ d s) t h = ground (arith, starts_with-join key s t)

starts_with-length : (key s : String) → starts_with key s ≡ true → text_length key ≤ text_length s
starts_with-length String.[] s h = omega arith
starts_with-length (String.◌∷◌ c key) String.[] h = cc
starts_with-length (String.◌∷◌ c key) (String.◌∷◌ d s) h = ground (arith, starts_with-length key s)

pub replace_from-join :
    (key by : String) (skip : ℕ) (s t : String)
    → is_closed key s ≡ true
    → skip ≤ text_length s
    → replace_from key by skip (join s t)
      ≡ join (replace_from key by skip s) (replace_from key by 0 t)
unfolding replace_from
replace_from-join key by zero String.[] t h le = refl
replace_from-join key by (suc skip) String.[] t h le = ground arith
replace_from-join key by (suc skip) (String.◌∷◌ c s) t h le =
    replace_from-join key by skip s t (ground arith) (omega arith)
replace_from-join key by zero (String.◌∷◌ c s) t h le =
    let n = cond (starts_with key (String.◌∷◌ c s)) (text_length key - 1) 0 in
    let le : n ≤ text_length s = elim (Bool-cases (starts_with key (String.◌∷◌ c s))) [
      | inl found ↦ ground (arith, found, starts_with-length key (String.◌∷◌ c s) found)
      | inr missing ↦ ground (arith, missing)
    ] in
    let same = starts_with-join key (String.◌∷◌ c s) t (ground arith) in
    let behind = replace_from-join key by n s t (ground arith) le in
    let split =
      put-join (starts_with key (String.◌∷◌ c s)) by c (replace_from key by n s)
        (replace_from key by 0 t) in
    rw (same, behind) split
