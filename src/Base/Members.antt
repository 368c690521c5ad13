-- ===== src/Base/Members.antt =====
-- Slices without repetition: one that holds no more values than another is no longer.
use Prim.Native.Nat.{suc, ◌≤◌}
use mathlib.Core.Path.{◌≡◌}
use mathlib.Core.Logic.{ite, ◌≢◌}
use mathlib.Core.Bool.{true}
use mathlib.Core.List.{List, [], ◌∷◌}
use native.Mathlib.Omega.{arith}
use cloudcompute.Base.Lists.{has, Distinct, length}

module _ {A : Type 0} (eq : Discrete A) where
  abbrev remove : A → List A → List A
  remove a [] = []
  remove a (x ∷ xs) = let rest = remove a xs in ite (eq a x) xs (x ∷ rest)

  length-remove :
      (a : A) (xs : List A) → has eq a xs ≡ true → length xs ≡ suc (length (remove a xs))
  length-remove a [] h = cc
  length-remove a (x ∷ xs) h = ground (arith, length-remove a xs)

  has-remove : (a b : A) (xs : List A) → a ≢ b → has eq b xs ≡ true → has eq b (remove a xs) ≡ true
  has-remove a b [] n h = h
  has-remove a b (x ∷ xs) n h = ground (arith, has-remove a b xs)

  pub subset-length :
      (xs ys : List A)
      → Distinct eq xs
      → ((a : A) → has eq a xs ≡ true → has eq a ys ≡ true)
      → length xs ≤ length ys
  subset-length [] ys d sub = omega arith
  subset-length (x ∷ xs) ys d sub =
      let kept = λ (a : A) (h : has eq a xs ≡ true).
        has-remove x a ys (λ e. ground (arith, d.0)) (ground (arith, sub a)) in
      ground (arith, subset-length xs (remove x ys) d.1 kept, length-remove x ys, sub x)

  pub same_members-length :
      (xs ys : List A)
      → Distinct eq xs
      → Distinct eq ys
      → ((a : A) → has eq a xs ≡ has eq a ys)
      → length xs ≡ length ys
  same_members-length xs ys dx dy same = omega (
    arith,
    subset-length xs ys dx (λ a h. rw (← same a) h),
    subset-length ys xs dy (λ a h. rw (same a) h),
  )
