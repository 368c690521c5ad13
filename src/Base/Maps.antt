-- ===== src/Base/Maps.antt =====
-- A Go map as an association list whose keys are distinct. The order of the list is an order in
-- which `range` may visit the map.
use mathlib.Core.Path.{◌≡◌, refl}
use mathlib.Core.Logic.{ite}
use mathlib.Core.Bool.{true, false}
use mathlib.Core.Option.{Option, none, some}
use mathlib.Core.List.{List, [], ◌∷◌}
use native.Mathlib.Omega.{arith}
use cloudcompute.Base.Lists.{has, Distinct}

abbrev pub Map : Type 0 → Type 0 → Type 0
Map K V = List (K × V)

module _ {K V : Type 0} where
  abbrev pub keys : Map K V → List K
  keys [] = []
  keys ((k, v) ∷ m) = k ∷ keys m

module _ {K V : Type 0} (eq : Discrete K) where
  -- `v, ok := m[k]`
  abbrev pub lookup : K → Map K V → Option V
  lookup k [] = none
  lookup k ((j, v) ∷ m) = ite (eq k j) (some v) (lookup k m)

  -- `m[k]`, with the zero value of the element type.
  abbrev pub get_or : V → K → Map K V → V
  get_or d k [] = d
  get_or d k ((j, v) ∷ m) = ite (eq k j) v (get_or d k m)

  -- `m[k] = v`
  abbrev pub insert : K → V → Map K V → Map K V
  insert k v [] = (k, v) ∷ []
  insert k v ((j, w) ∷ m) = let rest = insert k v m in ite (eq k j) ((j, v) ∷ m) ((j, w) ∷ rest)

  -- `m[k] = f(m[k])`, where a missing key reads as the zero value.
  abbrev pub update : V → (V → V) → K → Map K V → Map K V
  update d f k [] = (k, f d) ∷ []
  update d f k ((j, w) ∷ m) =
      let rest = update d f k m in ite (eq k j) ((j, f w) ∷ m) ((j, w) ∷ rest)

  -- `delete(m, k)`
  abbrev pub delete : K → Map K V → Map K V
  delete k [] = []
  delete k ((j, w) ∷ m) = let rest = delete k m in ite (eq k j) m ((j, w) ∷ rest)

  pub lookup-insert :
      (k j : K) (v : V) (m : Map K V) → lookup j (insert k v m) ≡ ite (eq j k) (some v) (lookup j m)
  lookup-insert k j v [] = refl
  lookup-insert k j v ((i, w) ∷ m) = ground (arith, lookup-insert k j v m)

  pub get_or-update :
      (d : V) (f : V → V) (k j : K) (m : Map K V)
      → get_or d j (update d f k m) ≡ ite (eq j k) (f (get_or d j m)) (get_or d j m)
  get_or-update d f k j [] = ground arith
  get_or-update d f k j ((i, w) ∷ m) = ground (arith, get_or-update d f k j m)

  pub has-keys-update :
      (d : V) (f : V → V) (k j : K) (m : Map K V)
      → has eq j (keys (update d f k m)) ≡ ite (eq j k) true (has eq j (keys m))
  has-keys-update d f k j [] = refl
  has-keys-update d f k j ((i, w) ∷ m) = ground (arith, has-keys-update d f k j m)

  pub update-Distinct :
      (d : V) (f : V → V) (k : K) (m : Map K V)
      → Distinct eq (keys m)
      → Distinct eq (keys (update d f k m))
  update-Distinct d f k [] h = (refl, tt)
  update-Distinct d f k ((i, w) ∷ m) h =
      ground (arith, update-Distinct d f k m h.1, has-keys-update d f k i m)

  pub has-keys-insert :
      (k : K) (v : V) (j : K) (m : Map K V)
      → has eq j (keys (insert k v m)) ≡ ite (eq j k) true (has eq j (keys m))
  has-keys-insert k v j [] = refl
  has-keys-insert k v j ((i, w) ∷ m) = ground (arith, has-keys-insert k v j m)

  pub insert-Distinct :
      (k : K) (v : V) (m : Map K V) → Distinct eq (keys m) → Distinct eq (keys (insert k v m))
  insert-Distinct k v [] h = (refl, tt)
  insert-Distinct k v ((i, w) ∷ m) h =
      ground (arith, insert-Distinct k v m h.1, has-keys-insert k v i m)

  pub lookup-absent : (k : K) (m : Map K V) → has eq k (keys m) ≡ false → lookup k m ≡ none
  lookup-absent k [] h = refl
  lookup-absent k ((j, w) ∷ m) h = ground (arith, lookup-absent k m)

  pub get_or-insert :
      (d : V) (k j : K) (v : V) (m : Map K V)
      → get_or d j (insert k v m) ≡ ite (eq j k) v (get_or d j m)
  get_or-insert d k j v [] = refl
  get_or-insert d k j v ((i, w) ∷ m) = ground (arith, get_or-insert d k j v m)
