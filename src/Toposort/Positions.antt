-- ===== src/Toposort/Positions.antt =====
-- The position of a value in a slice: that of its first occurrence.
use cloudcompute.Base.{
  ℕ, suc, ◌<◌, ◌≡◌, refl, List, [], ◌∷◌, ◌++◌, true, false, ite, arith, has, has-append, length,
  Distinct,
}

module _ {T : Type 0} (eq : Discrete T) where
  -- The length of the slice where the value does not occur.
  abbrev pub index : T → List T → ℕ
  index a [] = 0
  index a (x ∷ xs) = let rest = index a xs in ite (eq a x) 0 (suc rest)

  pub index-lt : (a : T) (xs : List T) → has eq a xs ≡ true → index a xs < length xs
  index-lt a [] h = cc
  index-lt a (x ∷ xs) h = ground (arith, index-lt a xs)

  pub index-snoc_of_has :
      (a : T) (xs : List T) (y : T) → has eq a xs ≡ true → index a (xs ++ y ∷ []) ≡ index a xs
  index-snoc_of_has a [] y h = cc
  index-snoc_of_has a (x ∷ xs) y h = ground (arith, index-snoc_of_has a xs y)

  pub index-snoc_absent :
      (a : T) (xs : List T) → has eq a xs ≡ false → index a (xs ++ a ∷ []) ≡ length xs
  index-snoc_absent a [] h = ground arith
  index-snoc_absent a (x ∷ xs) h = ground (arith, index-snoc_absent a xs)

  pub Distinct-snoc :
      (xs : List T) (y : T) → has eq y xs ≡ false → Distinct eq xs → Distinct eq (xs ++ y ∷ [])
  Distinct-snoc [] y h d = (refl, tt)
  Distinct-snoc (x ∷ xs) y h d =
      ground (arith, Distinct-snoc xs y, has-append eq x xs (y ∷ []), d.0)
