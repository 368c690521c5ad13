-- ===== src/Toposort/Weights.antt =====
-- What is left of a graph once some nodes are done: the edges into a node, and all edges.
use cloudcompute.Base.{
  ℕ, ◌+◌, ◌≤◌, ◌≡◌, refl, List, [], ◌∷◌, ◌++◌, Bool, true, false, ◌||◌, cond, arith, has,
  has-append, count, count_pos, count-zero, length, Distinct, ◌≢◌, Bool-cases, ◌&&◌, not, inl, inr,
}
use cloudcompute.Base.Maps.{keys, get_or}
use cloudcompute.Toposort.{Digraph}

module _ {T : Type 0} (eq : Discrete T) where
  abbrev pub is_target : T → Digraph T → Bool
  is_target v [] = false
  is_target v ((u, vs) ∷ g) = has eq v vs || is_target v g

  -- A node of the graph: a key or a target of an edge.
  abbrev pub is_node : T → Digraph T → Bool
  is_node v g = has eq v (keys g) || is_target v g

  -- The successors of the keys that are not done, weighed by `w`.
  abbrev pub weigh : (List T → ℕ) → List T → Digraph T → ℕ
  weigh w done [] = 0
  weigh w done ((u, vs) ∷ g) = let rest = weigh w done g in cond (has eq u done) rest (w vs + rest)

  -- The edges into `v` from nodes that are not done.
  abbrev pub into : T → List T → Digraph T → ℕ
  into v done g = weigh (count eq v) done g

  -- All edges from nodes that are not done.
  abbrev pub left : List T → Digraph T → ℕ
  left done g = weigh length done g

  pub has-snoc :
      (v u : T) (xs : List T) → has eq v (xs ++ u ∷ []) ≡ (has eq v xs || has eq v (u ∷ []))
  has-snoc v u xs = has-append eq v xs (u ∷ [])

  weigh-absent :
      (w : List T → ℕ) (done : List T) (u : T) (g : Digraph T)
      → has eq u (keys g) ≡ false
      → weigh w (done ++ u ∷ []) g ≡ weigh w done g
  weigh-absent w done u [] h = refl
  weigh-absent w done u ((x, vs) ∷ g) h = ground (arith, weigh-absent w done u g, has-snoc x u done)

  -- To be done with `u` takes the weight of its successors away.
  pub weigh-snoc :
      (w : List T → ℕ) (done : List T) (u : T) (g : Digraph T)
      → w [] ≡ 0
      → Distinct eq (keys g)
      → has eq u done ≡ false
      → weigh w done g ≡ weigh w (done ++ u ∷ []) g + w (get_or eq [] u g)
  weigh-snoc w done u [] z d h = omega arith
  weigh-snoc w done u ((x, vs) ∷ g) z d h =
      ground (arith, weigh-snoc w done u g z d.1 h, weigh-absent w done u g, has-snoc x u done)

  get_or-absent : (u : T) (g : Digraph T) → has eq u (keys g) ≡ false → get_or eq [] u g ≡ []
  get_or-absent u [] h = refl
  get_or-absent u ((x, vs) ∷ g) h = ground (arith, get_or-absent u g)

  pub weigh-le : (w : List T → ℕ) (done : List T) (g : Digraph T) → weigh w done g ≤ weigh w [] g
  weigh-le w done [] = omega arith
  weigh-le w done ((x, vs) ∷ g) = ground (arith, weigh-le w done g)

  -- With no edge left into `v`, its predecessors are done.
  pub into-zero_done :
      (u v : T) (done : List T) (g : Digraph T)
      → into v done g ≡ 0
      → has eq v (get_or eq [] u g) ≡ true
      → has eq u done ≡ true
  into-zero_done u v done [] z h = cc
  into-zero_done u v done ((x, vs) ∷ g) z h =
      ground (arith, into-zero_done u v done g, count_pos eq v vs)

  -- With an edge left into `v`, some predecessor is not done.
  pub into_pos_pred :
      (v : T) (done : List T) (g : Digraph T)
      → Distinct eq (keys g)
      → into v done g ≢ 0
      → (u : T) × (has eq u (keys g) ≡ true)
        × (has eq v (get_or eq [] u g) ≡ true)
        × (has eq u done ≡ false)
  into_pos_pred v done [] d h = absurd (h refl)
  into_pos_pred v done ((x, vs) ∷ g) d h = elim (Bool-cases (has eq v vs && not (has eq x done))) [
    | inl here ↦ (x, ground arith, ground arith, ground arith)
    | inr there ↦
        let later : into v done g ≢ 0 = λ e. h (ground (arith, count-zero eq v vs)) in
        let (u, known, edge, todo) = into_pos_pred v done g d.1 later in
        (u, ground arith, ground arith, todo)
  ]

  -- A successor of a node is a node.
  pub successor-node :
      (u v : T) (g : Digraph T) → has eq v (get_or eq [] u g) ≡ true → is_target v g ≡ true
  successor-node u v [] h = cc
  successor-node u v ((x, vs) ∷ g) h = ground (arith, successor-node u v g)
