-- ===== src/Events/Streams/Scanner.antt =====
-- eventgenerator.go: splitAt, and the tokens that a `bufio.Scanner` makes with it of the chunks
-- that its reader gives. Bytes are numbers. The limit of the scanner on the size of a token is left
-- out.
pub mod Search
pub mod Joined
use cloudcompute.Base.{
  ℕ, zero, suc, ◌+◌, List, [], ◌∷◌, ◌++◌, Bool, true, false, ◌&&◌, Option, none, some, cond, ◌==◌,
  length, take, drop,
}

-- `bytes.HasPrefix`
unfoldable pub has_prefix : List ℕ → List ℕ → Bool
has_prefix [] bytes = true
has_prefix (s ∷ ss) [] = false
has_prefix (s ∷ ss) (d ∷ bytes) = s == d && has_prefix ss bytes

abbrev pub next_index : Option ℕ → Option ℕ
next_index none = none
next_index (some i) = some (suc i)

-- `bytes.Index`, with `none` for -1.
unfoldable pub index : List ℕ → List ℕ → Option ℕ
unfolding has_prefix
index search [] = cond (has_prefix search []) (some 0) none
index search (d ∷ bytes) =
    let rest = index search bytes in cond (has_prefix search (d ∷ bytes)) (some 0) (next_index rest)

pub record Split : Type 0 where
  pub advance : ℕ
  pub token : Option (List ℕ)

abbrev pub is_empty : List ℕ → Bool
is_empty [] = true
is_empty (d ∷ bytes) = false

abbrev pub split_behind : List ℕ → List ℕ → Bool → Option ℕ → Split
split_behind search bytes at_eof (some i) = record {
  advance = i + length search;
  token = some (take i bytes);
}
split_behind search bytes at_eof none =
    cond at_eof (record { advance = length bytes; token = some bytes })
      (record { advance = 0; token = none })

-- The function that `splitAt` returns.
unfoldable pub split_at : List ℕ → List ℕ → Bool → Split
unfolding index
split_at search bytes at_eof =
    cond (at_eof && is_empty bytes) (record { advance = 0; token = none })
      (split_behind search bytes at_eof (index search bytes))

-- A scanner: the bytes that it has read and not yet passed on, and what its reader will give.
pub record Scanner : Type 0 where
  pub buffer : List ℕ
  pub reader : List (List ℕ)

-- A token with the scanner behind it, or what follows where there is none.
abbrev pub token_or : Split → Scanner → Option (List ℕ × Scanner) → Option (List ℕ × Scanner)
token_or split s rest = elim split.token [
  | some token ↦ some (token, record s { buffer = drop split.advance s.buffer })
  | none ↦ rest
]

-- `Scan`: the buffer is split as soon as it holds a token; otherwise the next chunk is read.
unfoldable pub scan : List ℕ → List ℕ → List (List ℕ) → Option (List ℕ × Scanner)
unfolding split_at
scan search buffer [] =
    token_or (split_at search buffer true) (record { buffer = buffer; reader = [] }) none
scan search buffer (chunk ∷ chunks) =
    let rest = scan search (buffer ++ chunk) chunks in
    token_or (split_at search buffer false) (record { buffer = buffer; reader = chunk ∷ chunks })
      rest

-- The tokens of all calls of `Scan`, by fuel.
unfoldable pub scan_all : ℕ → List ℕ → Scanner → List (List ℕ)
unfolding scan
scan_all zero search s = []
scan_all (suc fuel) search s = elim (scan search s.buffer s.reader) [
  | none ↦ []
  | some (token, s') ↦ token ∷ scan_all fuel search s'
]

abbrev pub concat : List (List ℕ) → List ℕ
concat [] = []
concat (chunk ∷ chunks) = chunk ++ concat chunks

-- The tokens of a reader: each takes a byte at least, so that one more than its bytes is enough
-- fuel.
unfoldable pub tokens_of : List ℕ → List (List ℕ) → List (List ℕ)
unfolding scan_all
tokens_of search chunks =
    scan_all (suc (length (concat chunks))) search (record { buffer = []; reader = chunks })
