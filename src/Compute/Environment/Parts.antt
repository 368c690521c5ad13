-- ===== src/Compute/Environment/Parts.antt =====
-- The environment of a job: the pairs that the loop puts together, and what is found in them.
use cloudcompute.Base.{◌≡◌, refl, String, [], ◌∷◌, ◌++◌, true, ◌||◌, cond, arith}
use cloudcompute.Manifest.{KeyValuePairs, ComputeManifest, Event}
use cloudcompute.KeyValues.{has_key, get_val}
use cloudcompute.KeyValues.Repeated.{has_key-append}
use cloudcompute.Compute.{Names, add_unless, pair}

get_val-append :
    (xs ys : KeyValuePairs) (key : String)
    → get_val (xs ++ ys) key ≡ cond (has_key xs key) (get_val xs key) (get_val ys key)
unfolding get_val has_key
get_val-append [] ys key = refl
get_val-append (kvp ∷ xs) ys key = ground (arith, get_val-append xs ys key)

-- The manifest's own value, or a value of the loop's.
abbrev pub given_or : KeyValuePairs → String → String → String
given_or env key value = cond (has_key env key) (get_val env key) value

-- The environment before the event's additional variables are merged.
abbrev pub base : {Value : Type 0} → Names → Event Value → ComputeManifest Value → KeyValuePairs
base names e m =
    let manifest_id = names.uuid_string m.manifest_id in
    let env =
      m.inputs.environment
      ++ pair names.payload_id (names.uuid_string m.payload_id)
        ∷ pair names.manifest_id manifest_id
        ∷ [] in
    let env = add_unless env names.event_identifier (
      pair names.event_identifier e.event_identifier
      ∷ pair names.event_number e.event_identifier
      ∷ []) in
    let env = add_unless env names.manifest_id (pair names.manifest_id manifest_id ∷ []) in
    env ++ pair names.plugin_definition m.plugin_definition ∷ []

add_unless-get_val :
    (env more : KeyValuePairs) (key k : String)
    → (get_val (add_unless env key more) k
        ≡ cond
            (has_key env key)
            (get_val env k)
            (cond (has_key env k) (get_val env k) (get_val more k)))
      × (has_key (add_unless env key more) k
          ≡ cond (has_key env key) (has_key env k) (has_key env k || has_key more k))
add_unless-get_val env more key k =
    ground (arith, get_val-append env more k, has_key-append env more k)

module _ {Value : Type 0} (names : Names) (e : Event Value) (m : ComputeManifest Value) where
  abbrev pub first_two : KeyValuePairs
  first_two =
      pair names.payload_id (names.uuid_string m.payload_id)
      ∷ pair names.manifest_id (names.uuid_string m.manifest_id)
      ∷ []

  abbrev pub of_event : KeyValuePairs
  of_event =
      pair names.event_identifier e.event_identifier
      ∷ pair names.event_number e.event_identifier
      ∷ []

  -- The manifest's own variables and the first two of the loop.
  abbrev pub own : KeyValuePairs
  own = m.inputs.environment ++ first_two

  abbrev pub with_event : KeyValuePairs
  with_event = add_unless own names.event_identifier of_event

  has_manifest_id : has_key with_event names.manifest_id ≡ true
  unfolding has_key
  has_manifest_id = ground (
    arith,
    has_key-append m.inputs.environment first_two names.manifest_id,
    has_key-append own of_event names.manifest_id,
  )

  pub base-get_val :
      (key : String)
      → get_val (base names e m) key
        ≡ given_or with_event key
            (get_val (pair names.plugin_definition m.plugin_definition ∷ []) key)
  base-get_val key = ground (
    arith,
    has_manifest_id,
    get_val-append with_event (pair names.plugin_definition m.plugin_definition ∷ []) key,
  )

  pub own-given_or :
      (key value : String)
      → given_or own key value ≡ given_or m.inputs.environment key (given_or first_two key value)
  own-given_or key value = ground (
    arith,
    get_val-append m.inputs.environment first_two key,
    has_key-append m.inputs.environment first_two key,
  )

  pub with_event-given_or :
      (key value : String)
      → given_or with_event key value
        ≡ given_or own key
            (cond (has_key own names.event_identifier) value (given_or of_event key value))
  with_event-given_or key value =
      ground (arith, get_val-append own of_event key, has_key-append own of_event key)

  pub base-parts :
      base names e m ≡ with_event ++ pair names.plugin_definition m.plugin_definition ∷ []
  base-parts = ground (arith, has_manifest_id)
