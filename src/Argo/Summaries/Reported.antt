-- ===== src/Argo/Summaries/Reported.antt =====
-- The statuses that Argo's nodes are reported with.
use cloudcompute.Base.{
  ◌≡◌, ◌≢◌, refl, ℕ, arith, All, Bool, true, false, ite, String, [], ◌∷◌, String_discrete,
}
use cloudcompute.Docker.Queue.{succeeded}
use cloudcompute.Docker.Provider.{status_text}
use cloudcompute.Base.Maps.{Map, get_or}
use cloudcompute.Argo.Summaries.{argo_to_cc_status, Node, node_summary}

-- A property of the zero value and of each value of a map is one of what is read from it.
get_or-All :
    {K V : Type 0} (eq : Discrete K) (P : V → Type 0) (d : V) (k : K) (m : Map K V)
    → P d
    → All (λ (j, v). P v) m
    → P (get_or eq d k m)
get_or-All eq P d k [] hd h = hd
get_or-All eq P d k ((j, v) ∷ m) hd h = elim (eq k j) as (λ e. P (ite e v (get_or eq d k m))) [
  | yes e ↦ h.0
  | no n ↦ get_or-All eq P d k m hd h.1
]

abbrev is_succeeded : String → Bool
is_succeeded s = ite (String_discrete s (status_text succeeded)) true false

no_status : All (λ (phase, s). is_succeeded s ≡ false) argo_to_cc_status
unfolding String_discrete
no_status = (refl, (refl, (refl, (refl, (refl, (refl, (refl, tt)))))))

empty_status : is_succeeded "" ≡ false
unfolding String_discrete
empty_status = refl

-- No node is reported with the status by which the Docker provider reports a job that has
-- succeeded: the status of a node that has is spelt otherwise.
pub node_summary-misspells :
    (created : ℕ) (node : Node) → (node_summary created node).status ≢ status_text succeeded
unfolding node_summary
node_summary-misspells created node h =
    let other =
      get_or-All String_discrete (λ s. is_succeeded s ≡ false) "" node.phase argo_to_cc_status
        empty_status no_status in
    ground (arith, h, other)
