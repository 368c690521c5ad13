-- ===== src/Docker/Provider/Counts.antt =====
-- The counts of a monitor of the Docker compute manager.
use cloudcompute.Base.{
  ℕ, suc, ◌+◌, ◌≡◌, refl, String, List, [], ◌∷◌, ite, String_discrete, arith, count,
}
use cloudcompute.Base.Maps.{Map, get_or, update, get_or-update}
use cloudcompute.Docker.Queue.{DockerJob}
use cloudcompute.Docker.Provider.{status_text, status_counts}

abbrev pub status_texts : List DockerJob → List String
status_texts [] = []
status_texts (j ∷ queue) = status_text j.status ∷ status_texts queue

moved_suc : {P : Type 0} (d : Dec P) (a b : ℕ) → ite d (suc a) a + b ≡ a + ite d (suc b) b
moved_suc (yes p) a b = omega arith
moved_suc (no n) a b = refl

counts-add :
    (counts : Map String ℕ) (queue : List DockerJob) (s : String)
    → get_or String_discrete 0 s (status_counts counts queue)
      ≡ get_or String_discrete 0 s counts + count String_discrete s (status_texts queue)
unfolding status_counts
counts-add counts [] s = omega arith
counts-add counts (j ∷ queue) s =
    let text = status_text j.status in
    rw
      (
        counts-add (update String_discrete 0 suc text counts) queue s,
        get_or-update String_discrete 0 suc text s counts,
      )
      (moved_suc (String_discrete s text) (get_or String_discrete 0 s counts)
        (count String_discrete s (status_texts queue)))

-- The monitor counts, for each status, the jobs that have it.
pub status_counts_lem :
    (queue : List DockerJob) (s : String)
    → get_or String_discrete 0 s (status_counts [] queue)
      ≡ count String_discrete s (status_texts queue)
status_counts_lem queue s = omega (arith, counts-add [] queue s)
