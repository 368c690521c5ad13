-- ===== src/Argo/Slugs.antt =====
-- toSlugFast: what a slug looks like.
use cloudcompute.Base.{ℕ, ◌≡◌, refl, List, [], ◌∷◌, Bool, true, false, ◌&&◌, ◌||◌, ◌==◌, arith}
use cloudcompute.Argo.{
  is_lower_or_digit, slug_from, trim_start, trim_end, cons_unless_last, to_slug,
}

-- Lower case letters, digits and single hyphens; no hyphen first where `hyphen` is true.
abbrev pub IsClean : Bool → List ℕ → Type 0
IsClean hyphen [] = Unit
IsClean hyphen (b ∷ bs) =
    ((is_lower_or_digit b || b == 45) ≡ true) × ((hyphen && b == 45) ≡ false) × IsClean (b == 45) bs

abbrev pub ends_in_hyphen : List ℕ → Bool
ends_in_hyphen [] = false
ends_in_hyphen (b ∷ []) = b == 45
ends_in_hyphen (b ∷ c ∷ bs) = ends_in_hyphen (c ∷ bs)

slug_from-IsClean : (hyphen : Bool) (bs : List ℕ) → IsClean hyphen (slug_from hyphen bs)
unfolding slug_from
slug_from-IsClean hyphen [] = tt
slug_from-IsClean hyphen (b ∷ bs) =
    ground (arith, slug_from-IsClean false bs, slug_from-IsClean true bs)

trim_start-IsClean :
    (hyphen : Bool) (bs : List ℕ) → IsClean hyphen bs → IsClean true (trim_start bs)
unfolding trim_start
trim_start-IsClean hyphen [] h = tt
trim_start-IsClean hyphen (b ∷ bs) h =
    ground (arith, h.0, h.1, h.2, trim_start-IsClean (b == 45) bs h.2)

cons-IsClean :
    (hyphen : Bool) (b : ℕ) (bs : List ℕ)
    → (is_lower_or_digit b || b == 45) ≡ true
    → (hyphen && b == 45) ≡ false
    → IsClean (b == 45) bs
    → IsClean hyphen (cons_unless_last b bs)
cons-IsClean hyphen b [] known first h = ground arith
cons-IsClean hyphen b (c ∷ bs) known first h = (known, first, h)

trim_end-IsClean : (hyphen : Bool) (bs : List ℕ) → IsClean hyphen bs → IsClean hyphen (trim_end bs)
unfolding trim_end
trim_end-IsClean hyphen [] h = tt
trim_end-IsClean hyphen (b ∷ bs) h =
    cons-IsClean hyphen b (trim_end bs) h.0 h.1 (trim_end-IsClean (b == 45) bs h.2)

cons-ends :
    (b : ℕ) (bs : List ℕ)
    → ends_in_hyphen bs ≡ false
    → ends_in_hyphen (cons_unless_last b bs) ≡ false
cons-ends b [] h = ground arith
cons-ends b (c ∷ bs) h = h

trim_end-ends : (bs : List ℕ) → ends_in_hyphen (trim_end bs) ≡ false
unfolding trim_end
trim_end-ends [] = refl
trim_end-ends (b ∷ bs) = cons-ends b (trim_end bs) (trim_end-ends bs)

to_slug-IsClean :
    (name : List ℕ) → IsClean true (to_slug name) × (ends_in_hyphen (to_slug name) ≡ false)
unfolding to_slug
to_slug-IsClean name =
    let s = slug_from false name in
    (
      trim_end-IsClean true (trim_start s)
          (trim_start-IsClean false s (slug_from-IsClean false name)),
      trim_end-ends (trim_start s),
    )

slug_from-id : (hyphen : Bool) (bs : List ℕ) → IsClean hyphen bs → slug_from hyphen bs ≡ bs
unfolding slug_from
slug_from-id hyphen [] h = refl
slug_from-id hyphen (b ∷ bs) h = ground (arith, h.0, h.1, slug_from-id (b == 45) bs h.2)

trim_start-id : (bs : List ℕ) → IsClean true bs → trim_start bs ≡ bs
unfolding trim_start
trim_start-id [] h = refl
trim_start-id (b ∷ bs) h = ground (arith, h.1)

trim_end-id : (bs : List ℕ) → ends_in_hyphen bs ≡ false → trim_end bs ≡ bs
unfolding trim_end
trim_end-id [] h = refl
trim_end-id (b ∷ []) h = ground arith
trim_end-id (b ∷ c ∷ bs) h = rw (trim_end-id (c ∷ bs) h) refl

IsClean-weaken : (bs : List ℕ) → IsClean true bs → IsClean false bs
IsClean-weaken [] h = tt
IsClean-weaken (b ∷ bs) h = (h.0, refl, h.2)

to_slug-to_slug : (name : List ℕ) → to_slug (to_slug name) ≡ to_slug name
to_slug-to_slug name = let (clean, ends) = to_slug-IsClean name in stays (to_slug name) clean ends
  where
    stays : (s : List ℕ) → IsClean true s → ends_in_hyphen s ≡ false → to_slug s ≡ s
    stays s clean ends =
        unfold to_slug in
        rw
          (slug_from-id false s (IsClean-weaken s clean), trim_start-id s clean, trim_end-id s ends)
          refl

-- A slug has lower case letters, digits and hyphens only, no two hyphens in a row, and none at
-- either end; and it is its own slug.
pub to_slug_lem :
    (name : List ℕ)
    → IsClean true (to_slug name)
      × (ends_in_hyphen (to_slug name) ≡ false)
      × (to_slug (to_slug name) ≡ to_slug name)
to_slug_lem name = let (clean, ends) = to_slug-IsClean name in (clean, ends, to_slug-to_slug name)
