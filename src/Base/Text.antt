-- ===== src/Base/Text.antt =====
-- What the program uses of Go's `strconv` and `strings` on whole texts.
use Prim.Native.Nat.{ℕ, zero, suc, ◌+◌, ◌-◌, ◌*◌, ◌/◌, ◌%◌, ◌^◌}
use Prim.Native.Char.{Char, code}
use Prim.Native.String.{String}
use mathlib.Core.Path.{◌≡◌, refl}
use mathlib.Core.Bool.{Bool, true, false, ◌||◌, ◌&&◌, cond}
use mathlib.Core.Option.{Option, none, some}
use cloudcompute.Base.Tests.{◌==◌, leb, ltb}
use cloudcompute.Base.Int.{ℤ, pos, negsuc}

digit : ℕ → String
digit zero = "0"
digit (suc zero) = "1"
digit (suc (suc zero)) = "2"
digit (suc (suc (suc zero))) = "3"
digit (suc (suc (suc (suc zero)))) = "4"
digit (suc (suc (suc (suc (suc zero))))) = "5"
digit (suc (suc (suc (suc (suc (suc zero)))))) = "6"
digit (suc (suc (suc (suc (suc (suc (suc zero))))))) = "7"
digit (suc (suc (suc (suc (suc (suc (suc (suc zero)))))))) = "8"
digit _ = "9"

abbrev pub join : String → String → String
join String.[] t = t
join (String.◌∷◌ c s) t = String.◌∷◌ c (join s t)

abbrev pub text_length : String → ℕ
text_length String.[] = 0
text_length (String.◌∷◌ c s) = suc (text_length s)

-- The decimal digits of a number; a fuel of one more than the number is enough.
decimal : ℕ → ℕ → String → String
unfolding digit
decimal zero n rest = rest
decimal (suc fuel) n rest = elim (ltb n 10) [
  | true ↦ join (digit n) rest
  | false ↦ decimal fuel (n / 10) (join (digit (n % 10)) rest)
]

-- `strconv.Itoa`
unfoldable pub itoa : ℤ → String
unfolding decimal
itoa (pos n) = decimal (suc n) n ""
itoa (negsuc n) = join "-" (decimal (suc (suc n)) (suc n) "")

-- The value of a text of digits, behind those that make `acc`.
digits : ℕ → String → Option ℕ
digits acc String.[] = some acc
digits acc (String.◌∷◌ c s) =
    let rest = digits (acc * 10 + (code c - 48)) s in
    cond (leb 48 (code c) && leb (code c) 57) rest none

unsigned : String → Option ℕ
unfolding digits
unsigned String.[] = none
unsigned (String.◌∷◌ c s) = digits 0 (String.◌∷◌ c s)

-- The number, where it fits into 64 bits.
positive : Option ℕ → Option ℤ
positive none = none
positive (some n) = cond (ltb n (2 ^ 63)) (some (pos n)) none

negative : Option ℕ → Option ℤ
negative none = none
negative (some zero) = some (pos 0)
negative (some (suc n)) = cond (ltb n (2 ^ 63)) (some (negsuc n)) none

-- `strconv.Atoi`, with `none` for an error.
unfoldable pub atoi : String → Option ℤ
unfolding unsigned positive negative
atoi String.[] = none
atoi (String.◌∷◌ c s) =
    cond (code c == 45) (negative (unsigned s))
      (cond (code c == 43) (positive (unsigned s)) (positive (unsigned (String.◌∷◌ c s))))

atoi_signed : atoi "-512" ≡ some (negsuc 511)
unfolding atoi
atoi_signed = refl

atoi_wrong : atoi "5g" ≡ none
unfolding atoi
atoi_wrong = refl

-- `unicode.IsSpace`
is_space : ℕ → Bool
is_space c =
    leb 9 c && leb c 13
    || c == 32
    || c == 0x85
    || c == 0xa0
    || c == 0x1680
    || leb 0x2000 c && leb c 0x200a
    || c == 0x2028
    || c == 0x2029
    || c == 0x202f
    || c == 0x205f
    || c == 0x3000

trim_left : String → String
unfolding is_space
trim_left String.[] = ""
trim_left (String.◌∷◌ c s) =
    let rest = trim_left s in cond (is_space (code c)) rest (String.◌∷◌ c s)

trim_end : Char → String → String
unfolding is_space
trim_end c String.[] = cond (is_space (code c)) "" (String.◌∷◌ c "")
trim_end c (String.◌∷◌ d s) = String.◌∷◌ c (String.◌∷◌ d s)

trim_right : String → String
unfolding trim_end
trim_right String.[] = ""
trim_right (String.◌∷◌ c s) = trim_end c (trim_right s)

-- `strings.TrimSpace`
unfoldable pub trim_space : String → String
unfolding trim_left trim_right
trim_space s = trim_right (trim_left s)

trim_space_blank : trim_space "  " ≡ ""
unfolding trim_space
trim_space_blank = refl

trim_space_inner : trim_space " a b " ≡ "a b"
unfolding trim_space
trim_space_inner = refl

itoa_small : itoa (pos 120) ≡ "120"
unfolding itoa
itoa_small = refl
