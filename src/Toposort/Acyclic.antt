-- ===== src/Toposort/Acyclic.antt =====
-- Acyclic graphs.
use cloudcompute.Base.{
  ℕ, ◌<◌, ◌≡◌, refl, List, [], ◌∷◌, true, false, arith, has, All, Distinct, subst, sym,
}
use cloudcompute.Base.Maps.{keys, get_or}
use cloudcompute.Toposort.{Digraph}

module _ {T : Type 0} (eq : Discrete T) where
  -- The pairs of a node and a node that the graph orders behind it.
  abbrev pub HasEdge : Digraph T → T → T → Type 0
  HasEdge g u v = has eq v (get_or eq [] u g) ≡ true

  -- A graph is acyclic where some rank rises along every edge.
  abbrev pub IsAcyclic : Digraph T → Type 0
  IsAcyclic g = (rank : T → ℕ) × All (λ (u, vs). All (λ v. rank u < rank v) vs) g

  All-at : (v : T) (vs : List T) (P : T → Type 0) → All P vs → has eq v vs ≡ true → P v
  All-at v [] P a h = cc
  All-at v (x ∷ vs) P a h = elim (eq v x) [
    | yes e ↦ subst P (sym e) a.0
    | no n ↦ All-at v vs P a.1 (ground arith)
  ]

  All-of : (vs : List T) (P : T → Type 0) → ((v : T) → has eq v vs ≡ true → P v) → All P vs
  All-of [] P h = tt
  All-of (v ∷ vs) P h = (h v (ground arith), All-of vs P (λ w e. h w (ground (arith, e))))

  -- A rank that rises in every entry rises along every edge, and the other way round.
  pub edge-rises :
      (rank : T → ℕ) (g : Digraph T)
      → All (λ (u, vs). All (λ v. rank u < rank v) vs) g
      → (u v : T) → HasEdge g u v
      → rank u < rank v
  edge-rises rank [] a u v edge = cc
  edge-rises rank ((w, vs) ∷ g) a u v edge = elim (eq u w) [
    | yes e ↦
        let low : rank w < rank v = All-at v vs (λ v. rank w < rank v) a.0 (ground arith) in
        subst (λ x. rank x < rank v) (sym e) low
    | no n ↦ edge-rises rank g a.1 u v (ground arith)
  ]

  absent-successors : (u : T) (g : Digraph T) → has eq u (keys g) ≡ false → get_or eq [] u g ≡ []
  absent-successors u [] h = refl
  absent-successors u ((w, vs) ∷ g) h = ground (arith, absent-successors u g)

  pub rises-All :
      (rank : T → ℕ) (g : Digraph T)
      → Distinct eq (keys g)
      → ((u v : T) → HasEdge g u v → rank u < rank v)
      → All (λ (u, vs). All (λ v. rank u < rank v) vs) g
  rises-All rank [] d h = tt
  rises-All rank ((w, vs) ∷ g) d h = (
    All-of vs (λ v. rank w < rank v) (λ v e. h w v (ground (arith, e))),
    rises-All rank g d.1 (λ u v edge. h u v (ground (arith, edge, absent-successors w g d.0))),
  )
