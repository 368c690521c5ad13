-- ===== src/Manifest/Place.antt =====
-- The loop of `SortManifests` that looks the ordered ids up.
use cloudcompute.Base.{
  ℕ, suc, ◌≤◌, ◌<◌, ◌≡◌, refl, List, [], ◌∷◌, ◌++◌, true, false, none, some, ℕ_discrete, length,
  set, drop, return, has, arith, All, length-append, append_assoc, ◌∙◌,
}
use cloudcompute.Toposort.{not_found}
use cloudcompute.Manifest.{Uuid, ComputeManifest, empty_manifest, get_manifest, place_manifests}

module _ {Value : Type 0} where
  abbrev pub manifest_ids : List (ComputeManifest Value) → List Uuid
  manifest_ids [] = []
  manifest_ids (m ∷ ms) = m.manifest_id ∷ manifest_ids ms

  -- `ordered` holds the manifests of `ms` that carry the ids, in their order.
  abbrev pub Found :
      List (ComputeManifest Value) → List Uuid → List (ComputeManifest Value) → Type 0
  Found ms [] found = found ≡ []
  Found ms (id ∷ ids) [] = ⊥
  Found ms (id ∷ ids) (m ∷ found) =
      (get_manifest ms id ≡ (m, none)) × (m.manifest_id ≡ id) × Found ms ids found

  get_manifest-found :
      (ms : List (ComputeManifest Value)) (id : Uuid)
      → has ℕ_discrete id (manifest_ids ms) ≡ true
      → (m : ComputeManifest Value) × (get_manifest ms id ≡ (m, none)) × (m.manifest_id ≡ id)
  unfolding get_manifest
  get_manifest-found [] id h = cc
  get_manifest-found (m ∷ ms) id h = elim (ℕ_discrete m.manifest_id id) [
    | yes e ↦ (m, ground arith, e)
    | no n ↦
        let later : has ℕ_discrete id (manifest_ids ms) ≡ true = ground arith in
        let (x, found, same) = get_manifest-found ms id later in (x, ground arith, same)
  ]

  get_manifest-missing :
      (ms : List (ComputeManifest Value)) (id : Uuid)
      → has ℕ_discrete id (manifest_ids ms) ≡ false
      → get_manifest ms id ≡ (empty_manifest, some not_found)
  unfolding get_manifest
  get_manifest-missing [] id h = refl
  get_manifest-missing (m ∷ ms) id h = ground (arith, get_manifest-missing ms id)

  set-append :
      (done rest : List (ComputeManifest Value)) (x m : ComputeManifest Value)
      → set (done ++ x ∷ rest) (length done) m ≡ (done ++ m ∷ []) ++ rest
  set-append [] rest x m = refl
  set-append (d ∷ done) rest x m = cc (set-append done rest x m)

  place-step :
      (ms ordered : List (ComputeManifest Value)) (i : ℕ) (id : Uuid) (ids : List Uuid)
      (m : ComputeManifest Value)
      → get_manifest ms id ≡ (m, none)
      → i < length ordered
      → place_manifests ms i (id ∷ ids) ordered ≡ place_manifests ms (suc i) ids (set ordered i m)
  unfolding place_manifests
  place-step ms ordered i id ids m e h = ground arith

  -- With room for the ids, the loop puts the manifests found in place and leaves the rest.
  pub place-Found :
      (ms : List (ComputeManifest Value)) (ids : List Uuid)
      (done room : List (ComputeManifest Value))
      → All (λ id. has ℕ_discrete id (manifest_ids ms) ≡ true) ids
      → length ids ≤ length room
      → (found : List (ComputeManifest Value)) × Found ms ids found
        × (place_manifests ms (length done) ids (done ++ room)
            ≡ return (done ++ (found ++ drop (length ids) room), none))
  unfolding place_manifests
  place-Found ms [] done room all fits = ([], refl, refl)
  place-Found ms (id ∷ ids) done [] all fits = absurd (omega arith)
  place-Found ms (id ∷ ids) done (r ∷ room) all fits =
      let (m, is_m, same) = get_manifest-found ms id all.0 in
      let (found, ok, eq) = place-Found ms ids (done ++ m ∷ []) room all.1 (omega arith) in
      let next : length (done ++ m ∷ []) ≡ suc (length done) =
        omega (arith, length-append done (m ∷ [])) in
      (
        m ∷ found,
        (is_m, same, ok),
        place-step ms (done ++ r ∷ room) (length done) id ids m is_m
              (omega (arith, length-append done (r ∷ room)))
            ∙ rw (
              set-append done room r m,
              ← next,
              eq,
              append_assoc done (m ∷ []) (found ++ drop (length ids) room),
            ),
      )
