-- ===== src/Docker/Monitor/Lines.antt =====
-- What the writer of a log prints is the log.
use cloudcompute.Base.{
  ℕ, ◌≡◌, refl, List, [], ◌∷◌, ◌++◌, false, cond, ◌==◌, arith, All, length, append_assoc, has,
  ℕ_discrete, has-append, append-nil, subst,
}
use cloudcompute.Docker.Monitor.{lines_from, write}

-- Lines as a text, each with a newline.
abbrev pub unlines : List (List ℕ) → List ℕ
unlines [] = []
unlines (line ∷ lines) = line ++ 10 ∷ unlines lines

-- A text with a newline at its end, unless it is empty.
abbrev pub end_line : List ℕ → List ℕ
end_line [] = []
end_line (b ∷ []) = cond (b == 10) (b ∷ []) (b ∷ 10 ∷ [])
end_line (b ∷ c ∷ p) = b ∷ end_line (c ∷ p)

end-cons : (b c : ℕ) (p q : List ℕ) → q ≡ c ∷ p → end_line (b ∷ q) ≡ b ∷ end_line q
end-cons b c p [] e = cc
end-cons b c p (d ∷ q) e = refl

end-newline : (line p : List ℕ) → end_line (line ++ 10 ∷ p) ≡ line ++ 10 ∷ end_line p
end-newline [] [] = refl
end-newline [] (c ∷ p) = refl
end-newline (b ∷ []) p = rw (← end-newline [] p) refl
end-newline (b ∷ c ∷ line) p = rw (← end-newline (c ∷ line) p) refl

end-plain :
    (b : ℕ) (line : List ℕ)
    → has ℕ_discrete 10 (b ∷ line) ≡ false
    → end_line (b ∷ line) ≡ b ∷ line ++ 10 ∷ []
end-plain b [] h = ground (arith, h)
end-plain b (c ∷ line) h = rw (end-plain c line (ground (arith, h))) refl

-- The lines of the text behind the bytes `line`.
lines_from-unlines :
    (line p : List ℕ)
    → has ℕ_discrete 10 line ≡ false
    → (unlines (lines_from line p) ≡ end_line (line ++ p))
      × All (λ l. has ℕ_discrete 10 l ≡ false) (lines_from line p)
unfolding lines_from
lines_from-unlines [] [] h = (refl, tt)
lines_from-unlines (b ∷ line) [] h = (rw (append-nil line) (rw (end-plain b line h) refl), (h, tt))
lines_from-unlines line (b ∷ p) h = elim (ℕ_discrete 10 b) [
  | yes e ↦
      let (text, plain) = lines_from-unlines [] p refl in
      subst
        (λ b.
          (unlines (lines_from line (b ∷ p)) ≡ end_line (line ++ b ∷ p))
          × All (λ l. has ℕ_discrete 10 l ≡ false) (lines_from line (b ∷ p)))
        e (rw (end-newline line p, text) refl, (h, plain))
  | no n ↦
      let (text, plain) =
        lines_from-unlines (line ++ b ∷ []) p
          (ground (arith, has-append ℕ_discrete 10 line (b ∷ []))) in
      let other : (b == 10) ≡ false = ground arith in
      rw other (rw (append_assoc line (b ∷ []) p) at text, plain)
]

-- A text that is written to a monitor's writer is printed whole, in lines with a newline each, the
-- last one too, and the number of bytes that is returned is that of the text.
pub write_lem :
    (p : List ℕ)
    → (let (lines, n) = write p in
        (unlines lines ≡ end_line p)
        × All (λ l. has ℕ_discrete 10 l ≡ false) lines
        × (n ≡ length p))
unfolding write
write_lem p = let (text, plain) = lines_from-unlines [] p refl in (text, plain, refl)
