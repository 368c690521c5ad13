-- ===== src/Compute/Environment.antt =====
-- The environment of a job: where the value of each variable comes from.
mod Parts
use cloudcompute.Base.{
  ◌≡◌, ◌≢◌, refl, ◌∙◌, ◌&&◌, Option, some, false, String, List, [], ◌∷◌, ◌++◌, true, ◌||◌, cond,
  String_discrete, arith, Distinct,
}
use cloudcompute.Manifest.{KeyValuePairs, ComputeManifest, Event}
use cloudcompute.KeyValues.{has_key, get_val, merge}
use cloudcompute.KeyValues.Repeated.{
  is_repeated, first_of, has_key-append, last_val-merge, last_parts, last_once,
}
use cloudcompute.KeyValues.Laws.{last_val, or_else, merge_lem}
use cloudcompute.Compute.{Names, add_unless, pair, job_environment}
use cloudcompute.Compute.Environment.Parts.{
  given_or, base, first_two, of_event, own, with_event, base-get_val, own-given_or,
  with_event-given_or, base-parts,
}

abbrev pub variables : Names → List String
variables names =
    names.payload_id ∷ names.manifest_id ∷ names.event_identifier ∷ names.event_number
    ∷ names.plugin_definition ∷ []

module _ {Value : Type 0} (names : Names) (e : Event Value) (m : ComputeManifest Value) where
  -- What the job finds under a name.
  abbrev pub value_of : String → String
  value_of key = get_val (job_environment names e m) key

  value_of-base :
      (key : String)
      → value_of key
        ≡ or_else (last_val e.additional_event_env_vars key) (get_val (base names e m) key)
  unfolding job_environment
  value_of-base key = (merge_lem (base names e m) e.additional_event_env_vars key).0

  -- What a variable should be: what the event's additional variables say last, or else the
  -- manifest's own value, or else `value`.
  abbrev pub expected : String → String → String
  expected key value =
      or_else (last_val e.additional_event_env_vars key) (given_or m.inputs.environment key value)

  value_of-chain :
      (key : String)
      → (let value = get_val (pair names.plugin_definition m.plugin_definition ∷ []) key in
          value_of key
          ≡ expected key (
              given_or (first_two names e m) key (
                cond
                  (has_key (own names e m) names.event_identifier)
                  value
                  (given_or (of_event names e m) key value))))
  value_of-chain key =
      let value = get_val (pair names.plugin_definition m.plugin_definition ∷ []) key in
      ground (
        arith,
        value_of-base key,
        base-get_val names e m key,
        with_event-given_or names e m key value,
        own-given_or names e m key (
            cond (has_key (own names e m) names.event_identifier) value
              (given_or (of_event names e m) key value)),
      )

  -- What the last pair says under a name.
  abbrev pub last_of : String → Option String
  last_of key = last_val (job_environment names e m) key

  -- The last pair is the loop's own where the manifest has one too; otherwise the event's
  -- additional variables go before it.
  abbrev pub expected_last : String → String → Option String
  expected_last key value = some (
      cond (has_key m.inputs.environment key) value
        (or_else (last_val e.additional_event_env_vars key) value))

  last_of-base :
      (key : String)
      → (let plugin = pair names.plugin_definition m.plugin_definition ∷ [] in
          last_of key
          ≡ cond
              (is_repeated ((with_event names e m) ++ plugin) key)
              (last_val ((with_event names e m) ++ plugin) key)
              (first_of
                (last_val e.additional_event_env_vars key)
                (last_val ((with_event names e m) ++ plugin) key)))
  unfolding job_environment
  last_of-base key =
      last_val-merge (base names e m) e.additional_event_env_vars key
      ∙ rw (base-parts names e m) refl

  -- The last pair, where the event's own pairs have another name.
  last_of-own :
      (key : String)
      → has_key (of_event names e m) key ≡ false
      → (let plugin = pair names.plugin_definition m.plugin_definition ∷ [] in
          let env = m.inputs.environment in
          let twice =
            is_repeated env key
            || is_repeated (first_two names e m) key
            || has_key env key && has_key (first_two names e m) key
            || is_repeated plugin key
            || (has_key env key || has_key (first_two names e m) key) && has_key plugin key in
          last_of key
          ≡ cond twice
              (first_of
                (last_val plugin key)
                (first_of (last_val (first_two names e m) key) (last_val env key)))
              (first_of (last_val e.additional_event_env_vars key) (
                first_of
                  (last_val plugin key)
                  (first_of (last_val (first_two names e m) key) (last_val env key)))))
  last_of-own key other =
      let (last, repeated) =
        last_parts m.inputs.environment (first_two names e m) (of_event names e m)
          (pair names.plugin_definition m.plugin_definition ∷ [])
          (has_key (own names e m) names.event_identifier) key other in
      last_of-base key ∙ rw (last, repeated) refl

  -- The event's pairs have neither of the names.
  of_event-has_key :
      (key : String)
      → names.event_identifier ≢ key
      → names.event_number ≢ key
      → has_key (of_event names e m) key ≡ false
  unfolding has_key
  of_event-has_key key a b = ground (arith, a, b)

  last_pairs :
      Distinct String_discrete (variables names)
      → (last_of names.payload_id ≡ expected_last names.payload_id (names.uuid_string m.payload_id))
        × (last_of names.manifest_id
            ≡ expected_last names.manifest_id (names.uuid_string m.manifest_id))
        × (last_of names.plugin_definition
            ≡ expected_last names.plugin_definition m.plugin_definition)
  unfolding get_val has_key
  last_pairs d = (
    last_of-own names.payload_id
          (of_event-has_key names.payload_id (ground (arith, d.0)) (ground (arith, d.0)))
        ∙ last_once m.inputs.environment (first_two names e m)
            (pair names.plugin_definition m.plugin_definition ∷ []) e.additional_event_env_vars
            names.payload_id (names.uuid_string m.payload_id) (ground (arith, d.0))
            (ground (arith, d.0)) (ground (arith, d.0)) (ground (arith, d.0)),
    last_of-own names.manifest_id
          (of_event-has_key names.manifest_id (ground (arith, d.1.0)) (ground (arith, d.1.0)))
        ∙ last_once m.inputs.environment (first_two names e m)
            (pair names.plugin_definition m.plugin_definition ∷ []) e.additional_event_env_vars
            names.manifest_id (names.uuid_string m.manifest_id) (ground (arith, d.0, d.1.0))
            (ground (arith, d.0, d.1.0)) (ground (arith, d.0, d.1.0)) (ground (arith, d.0, d.1.0)),
    last_of-own names.plugin_definition (
          of_event-has_key names.plugin_definition (ground (arith, d.1.1.0))
            (ground (arith, d.1.1.1.0)))
        ∙ last_once m.inputs.environment (first_two names e m)
            (pair names.plugin_definition m.plugin_definition ∷ []) e.additional_event_env_vars
            names.plugin_definition m.plugin_definition
            (ground (arith, d.0, d.1.0, d.1.1.0, d.1.1.1.0))
            (ground (arith, d.0, d.1.0, d.1.1.0, d.1.1.1.0))
            (ground (arith, d.0, d.1.0, d.1.1.0, d.1.1.1.0))
            (ground (arith, d.0, d.1.0, d.1.1.0, d.1.1.1.0)),
  )

  -- What a variable should be behind the merge into other pairs.
  abbrev pub expected_merged : String → String → String
  expected_merged key value =
      cond (has_key m.inputs.environment key) value
        (or_else (last_val e.additional_event_env_vars key) value)

  merged-last :
      (defaults : KeyValuePairs) (key value : String)
      → last_of key ≡ expected_last key value
      → get_val (merge defaults (job_environment names e m)) key ≡ expected_merged key value
  merged-last defaults key value h =
      (merge_lem defaults (job_environment names e m) key).0 ∙ rw h refl

  -- Where the names of the variables differ, `GetVal` finds in the environment of a manifest's job,
  -- under the names of the payload, the manifest, the event and the plugin definition, what the
  -- event's additional variables say last, or else the manifest's own value, or else its payload
  -- id, its id, the event's identifier and its plugin; and under the name of the event number so,
  -- or else the event's identifier, and the empty text where the manifest has an event identifier
  -- of its own. Merged into any other pairs, as the Docker runner merges it into the environment of
  -- the plugin, it gives under the names of the payload, the manifest and the plugin definition the
  -- payload id, the id and the plugin wherever the manifest has a value of its own, and otherwise
  -- what the additional variables say last, or else these.
  pub job_environment_lem :
      Distinct String_discrete (variables names)
      → (value_of names.payload_id ≡ expected names.payload_id (names.uuid_string m.payload_id))
        × (value_of names.manifest_id
            ≡ expected names.manifest_id (names.uuid_string m.manifest_id))
        × (value_of names.event_identifier ≡ expected names.event_identifier e.event_identifier)
        × (value_of names.event_number
            ≡ expected names.event_number
                (cond (has_key m.inputs.environment names.event_identifier) "" e.event_identifier))
        × (value_of names.plugin_definition ≡ expected names.plugin_definition m.plugin_definition)
        × ((defaults : KeyValuePairs)
            → (let merged = merge defaults (job_environment names e m) in
                (get_val merged names.payload_id
                  ≡ expected_merged names.payload_id (names.uuid_string m.payload_id))
                × (get_val merged names.manifest_id
                    ≡ expected_merged names.manifest_id (names.uuid_string m.manifest_id))
                × (get_val merged names.plugin_definition
                    ≡ expected_merged names.plugin_definition m.plugin_definition)))
  unfolding get_val has_key
  job_environment_lem d = (
    ground (arith, d.0, value_of-chain names.payload_id),
    ground (arith, d.0, d.1.0, value_of-chain names.manifest_id),
    ground (
      arith,
      d.0,
      d.1.0,
      value_of-chain names.event_identifier,
      has_key-append m.inputs.environment (first_two names e m) names.event_identifier,
    ),
    ground (
      arith,
      d.0,
      d.1.0,
      d.1.1.0,
      d.1.1.1.0,
      value_of-chain names.event_number,
      has_key-append m.inputs.environment (first_two names e m) names.event_identifier,
    ),
    ground (arith, d.0, d.1.0, d.1.1.0, d.1.1.1.0, value_of-chain names.plugin_definition),
    λ defaults.
        let (payload, manifest, plugin) = last_pairs d in
        (
          merged-last defaults names.payload_id (names.uuid_string m.payload_id) payload,
          merged-last defaults names.manifest_id (names.uuid_string m.manifest_id) manifest,
          merged-last defaults names.plugin_definition m.plugin_definition plugin,
        ),
  )
