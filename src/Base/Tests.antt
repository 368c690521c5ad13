-- ===== src/Base/Tests.antt =====
-- Boolean tests on the native numbers, and decided equality of texts.
use Prim.Native.Nat.{ℕ, compare, Ordering}
use Prim.Native.String.{String}
use mathlib.Core.Path.{◌≡◌, refl, sym, ◌∙◌}
use mathlib.Core.Logic.{◌⊎◌, inl, inr}
use mathlib.Core.Bool.{Bool, true, false, false≢true}
use text.Mathlib.Text.{◌==◌ as text_beq}
use text.Mathlib.TextEquality.{eq_iff}

abbrev pub ltb : ℕ → ℕ → Bool
ltb a b = elim (compare a b) [ Ordering.lt ↦ true | _ ↦ false ]

abbrev pub leb : ℕ → ℕ → Bool
leb a b = elim (compare a b) [ Ordering.gt ↦ false | _ ↦ true ]

infix 50 ◌==◌
abbrev pub ◌==◌ : ℕ → ℕ → Bool
a == b = elim (compare a b) [ Ordering.eq ↦ true | _ ↦ false ]

pub Bool-cases : (b : Bool) → (b ≡ true) ⊎ (b ≡ false)
Bool-cases true = inl refl
Bool-cases false = inr refl

text_decide : (b : Bool) (s t : String) → text_beq s t ≡ b → Dec (s ≡ t)
text_decide true s t e = yes ((eq_iff s t).0 e)
text_decide false s t e = no (λ p. false≢true (sym e ∙ (eq_iff s t).1 p))

-- The comparison `==` of two Go strings.
unfoldable pub String_discrete : Discrete String
unfolding text_decide
String_discrete s t = text_decide (text_beq s t) s t refl
