-- ===== src/Events/Streams/Scanner/Joined.antt =====
-- The tokens of texts that are written with the delimiter between them, in chunks of any size.
use cloudcompute.Base.{
  ℕ, zero, suc, ◌+◌, ◌≤◌, ◌<◌, ◌≡◌, refl, List, [], ◌∷◌, ◌++◌, Bool, true, false, Option, none,
  some, arith, All, inl, inr, length, length-append, take, drop, append_assoc, append-nil,
}
use cloudcompute.Events.Streams.Scanner.{
  index, split_at, Scanner, scan, scan_all, tokens_of, concat,
}
use cloudcompute.Events.Streams.Scanner.Search.{
  index-bound, index-append, Option-cases, some-injective, index-prefix, take-append, drop-append,
  take-length, drop-length, drop-all,
}

split_at-found :
    (s b : List ℕ) (at_eof : Bool) (i : ℕ)
    → 0 < length s
    → index s b ≡ some i
    → split_at s b at_eof ≡ record { advance = i + length s; token = some (take i b) }
unfolding split_at
split_at-found s [] at_eof i pos h = absurd (omega (arith, pos, index-bound s [] i h))
split_at-found s (x ∷ b) false i pos h = rw h refl
split_at-found s (x ∷ b) true i pos h = rw h refl

split_at-missing :
    (s b : List ℕ) → index s b ≡ none → split_at s b false ≡ record { advance = 0; token = none }
unfolding split_at
split_at-missing s b h = rw h refl

-- What a token leaves, where the delimiter stands in the buffer.
abbrev Cut : List ℕ → List ℕ → List ℕ → List ℕ → List ℕ → Type 0
Cut s b e t r = (take (length t) b ≡ t) × (drop (length t + length s) b ++ e ≡ r)

cut : (s b e t r : List ℕ) → index s b ≡ some (length t) → b ++ e ≡ t ++ s ++ r → Cut s b e t r
cut s b e t r h whole =
    let fits = index-bound s b (length t) h in
    let front = take-append (length t) b e (omega (arith, fits)) in
    let back = drop-append (length t + length s) b e fits in
    let dropped : drop (length t + length s) (t ++ s ++ r) ≡ r =
      rw (← length-append t s, drop-length (t ++ s) r) refl in
    (
      rw (← front, whole, append_assoc t s r, take-length t (s ++ r)) refl,
      rw (← back, whole, dropped) refl,
    )

-- One call of `Scan` where a token stands before the first delimiter.
abbrev Scans : List ℕ → List ℕ → List (List ℕ) → List ℕ → List ℕ → Type 0
Scans s b chunks t r =
    (q : Scanner) × (scan s b chunks ≡ some (t, q)) × (q.buffer ++ concat q.reader ≡ r)

scan-found :
    (s b : List ℕ) (chunks : List (List ℕ)) (t r : List ℕ)
    → 0 < length s
    → index s b ≡ some (length t)
    → b ++ concat chunks ≡ t ++ s ++ r
    → Scans s b chunks t r
unfolding scan
scan-found s b [] t r pos h whole =
    let (front, back) = cut s b [] t r h whole in
    (
      record { buffer = drop (length t + length s) b; reader = [] },
      rw (split_at-found s b true (length t) pos h, front) refl,
      back,
    )
scan-found s b (c ∷ cs) t r pos h whole =
    let (front, back) = cut s b (concat (c ∷ cs)) t r h whole in
    (
      record { buffer = drop (length t + length s) b; reader = c ∷ cs },
      rw (split_at-found s b false (length t) pos h, front) refl,
      back,
    )

scan-missing :
    (s b c : List ℕ) (cs : List (List ℕ))
    → index s b ≡ none
    → scan s b (c ∷ cs) ≡ scan s (b ++ c) cs
unfolding scan
scan-missing s b c cs h = rw (split_at-missing s b h) refl

-- The token is that before the first delimiter, whatever the chunks are.
scan-token :
    (s b : List ℕ) (chunks : List (List ℕ)) (t r : List ℕ)
    → 0 < length s
    → index s (t ++ s) ≡ some (length t)
    → b ++ concat chunks ≡ t ++ s ++ r
    → Scans s b chunks t r
scan-token s b chunks t r pos h whole = go b chunks whole
  where
    first : index s (t ++ s ++ r) ≡ some (length t)
    first = index-append s (t ++ s) r (length t) h

    go :
        (b : List ℕ) (chunks : List (List ℕ))
        → b ++ concat chunks ≡ t ++ s ++ r
        → Scans s b chunks t r
    go b [] whole = scan-found s b [] t r pos (rw (← append-nil b, whole) first) whole
    go b (c ∷ cs) whole = elim (Option-cases (index s b)) [
      | inl missing ↦
          let (q, e, rest) = go (b ++ c) cs (rw (append_assoc b c (concat cs)) whole) in
          (q, rw (scan-missing s b c cs missing) e, rest)
      | inr (i, found) ↦
          let here = index-append s b (concat (c ∷ cs)) i found in
          let same : i ≡ length t = some-injective (rw (← here, whole) first) in
          scan-found s b (c ∷ cs) t r pos (rw (← same) found) whole
    ]

-- The end of the reader: what is left is a token, unless it is empty.
abbrev pub last_token : List ℕ → List (List ℕ)
last_token [] = []
last_token (b ∷ bs) = (b ∷ bs) ∷ []

-- Texts with the delimiter behind each but the last.
abbrev pub joined : List ℕ → List (List ℕ) → List ℕ → List ℕ
joined s [] last = last
joined s (t ∷ ts) last = t ++ s ++ joined s ts last

abbrev at_end : List ℕ → Option (List ℕ × Scanner)
at_end [] = none
at_end (x ∷ b) = some (x ∷ b, record { buffer = []; reader = [] })

scan-end :
    (s b : List ℕ) (chunks : List (List ℕ))
    → index s (b ++ concat chunks) ≡ none
    → scan s b chunks ≡ at_end (b ++ concat chunks)
scan-end s [] [] h = unfold scan in refl
scan-end s (x ∷ b) [] h =
    let missing : index s (x ∷ b) ≡ none = rw (← append-nil b) h in
    unfold scan in rw (missing, drop-all b, append-nil b) refl
scan-end s b (c ∷ cs) h =
    rw
      (scan-missing s b c cs (index-prefix s b (concat (c ∷ cs)) h), ← append_assoc b c (concat cs))
      (scan-end s (b ++ c) cs (rw (append_assoc b c (concat cs)) h))

scan_all-none :
    (fuel : ℕ) (s : List ℕ) (q : Scanner)
    → scan s q.buffer q.reader ≡ none
    → scan_all (suc fuel) s q ≡ []
unfolding scan_all
scan_all-none fuel s q h = rw (scan_all, h) refl

scan_all-some :
    (fuel : ℕ) (s : List ℕ) (q q' : Scanner) (t : List ℕ)
    → scan s q.buffer q.reader ≡ some (t, q')
    → scan_all (suc fuel) s q ≡ t ∷ scan_all fuel s q'
unfolding scan_all
scan_all-some fuel s q q' t h = rw (scan_all, h) refl

scan_all-empty :
    (fuel : ℕ) (s : List ℕ) → scan_all fuel s (record { buffer = []; reader = [] }) ≡ []
unfolding scan_all
scan_all-empty zero s = refl
scan_all-empty (suc fuel) s =
    scan_all-none fuel s (record { buffer = []; reader = [] }) (unfold scan in refl)

last-step :
    (fuel : ℕ) (s : List ℕ) (q : Scanner) (w : List ℕ)
    → scan s q.buffer q.reader ≡ at_end w
    → scan_all (suc fuel) s q ≡ last_token w
last-step fuel s q [] h = scan_all-none fuel s q h
last-step fuel s q (x ∷ w) h =
    rw
      (
        scan_all-some fuel s q (record { buffer = []; reader = [] }) (x ∷ w) h,
        scan_all-empty fuel s,
      )
      refl

scan_all-joined :
    (fuel : ℕ) (s : List ℕ) (ts : List (List ℕ)) (last : List ℕ) (q : Scanner)
    → 0 < length s
    → All (λ t. index s (t ++ s) ≡ some (length t)) ts
    → index s last ≡ none
    → q.buffer ++ concat q.reader ≡ joined s ts last
    → length (joined s ts last) ≤ fuel
    → scan_all (suc fuel) s q ≡ ts ++ last_token last
scan_all-joined fuel s [] last q pos h free whole enough =
    last-step fuel s q last (rw (scan-end s q.buffer q.reader (rw whole free), whole) refl)
scan_all-joined zero s (t ∷ ts) last q pos h free whole enough =
    absurd
      (omega (arith, pos, enough, length-append (t ++ s) (joined s ts last), length-append t s))
scan_all-joined (suc fuel) s (t ∷ ts) last q pos h free whole enough =
    let (q', e, rest) = scan-token s q.buffer q.reader t (joined s ts last) pos h.0 whole in
    let size : length (joined s ts last) ≤ fuel =
      omega (arith, pos, enough, length-append (t ++ s) (joined s ts last), length-append t s) in
    rw
      (
        scan_all-some (suc fuel) s q q' t e,
        scan_all-joined fuel s ts last q' pos h.1 free rest size,
      )
      refl

-- Where a reader gives texts with a delimiter that is not empty between them, and the first
-- delimiter of each text with the delimiter behind it is that one, the tokens are these texts,
-- whatever the chunks of the reader are; an empty text at the end is left out.
pub tokens_of-joined :
    (delimiter : List ℕ) (texts : List (List ℕ)) (last : List ℕ) (chunks : List (List ℕ))
    → 0 < length delimiter
    → All (λ t. index delimiter (t ++ delimiter) ≡ some (length t)) texts
    → index delimiter last ≡ none
    → concat chunks ≡ joined delimiter texts last
    → tokens_of delimiter chunks ≡ texts ++ last_token last
unfolding tokens_of
tokens_of-joined delimiter texts last chunks pos first free whole =
    let size : length (joined delimiter texts last) ≤ length (concat chunks) =
      rw whole (omega arith) in
    scan_all-joined (length (concat chunks)) delimiter texts last
      (record { buffer = []; reader = chunks }) pos first free whole size
