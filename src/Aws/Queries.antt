-- ===== src/Aws/Queries.antt =====
-- The filters by job name of Status and TerminateJobs, for the jobs of a compute.
use cloudcompute.Base.{◌≡◌, refl, String, Bool, true, ap, ◌∙◌}
use cloudcompute.Base.Text.{join}
use cloudcompute.Manifest.{Uuid, Event}
use cloudcompute.Compute.{Names, CloudCompute, job_name_of}
use cloudcompute.Aws.{SummaryLevel, compute, event, job, query_string}

join_assoc : (s t u : String) → join (join s t) u ≡ join s (join t u)
join_assoc String.[] t u = refl
join_assoc (String.◌∷◌ c s) t u = ap (String.◌∷◌ c) (join_assoc s t u)

subst2 :
    (selects : String → String → Bool) {p q s t : String}
    → p ≡ q
    → s ≡ t
    → selects p s ≡ true
    → selects q t ≡ true
subst2 selects e f h = rw (← e, ← f) h

-- Where a filter selects the names that it spells, and one that ends in `*` those that begin with
-- what stands before it, a query on each level with the ids of a job finds the job by its name.
pub query_string-finds :
    {Value : Type 0} (selects : String → String → Bool) (names : Names) (c : CloudCompute)
    (e : Event Value) (job_id : Uuid) (level : SummaryLevel)
    → ((s : String) → selects s s ≡ true)
    → ((s t : String) → selects (join s "*") (join s t) ≡ true)
    → selects
        (query_string names.profile level (record {
          compute = names.uuid_string c.id;
          event = names.uuid_string e.id;
          job = names.uuid_string job_id;
        }))
        (job_name_of names c e job_id)
      ≡ true
unfolding query_string job_name_of
query_string-finds selects names c e job_id compute exact begins =
    let u = names.uuid_string c.id in
    let tail = join "_e_" (join (names.uuid_string e.id) (join "_j_" (names.uuid_string job_id))) in
    let start = join "_c_" u in
    subst2 selects (join_assoc names.profile start "*") (join_assoc names.profile start tail)
      (begins (join names.profile start) tail)
query_string-finds selects names c e job_id event exact begins =
    let u = names.uuid_string c.id in
    let v = names.uuid_string e.id in
    let tail = join "_j_" (names.uuid_string job_id) in
    let start = join "_c_" (join u (join "_e_" v)) in
    let inner = λ (x : String).
      join_assoc names.profile start x
      ∙ ap (λ s. join names.profile (join "_c_" s)) (join_assoc u (join "_e_" v) x) in
    subst2 selects (inner "*") (inner tail) (begins (join names.profile start) tail)
query_string-finds selects names c e job_id job exact begins = exact _
