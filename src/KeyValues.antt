-- ===== src/KeyValues.antt =====
-- compute-provider.go: KeyValuePairs, the ordered lists of environment variables.
pub mod Laws
pub mod Repeated
use cloudcompute.Base.{String, List, [], ◌∷◌, ◌++◌, Bool, true, false, ite, String_discrete}
use cloudcompute.Base.Maps.{Map}
use cloudcompute.Manifest.{KeyValuePair, KeyValuePairs}

unfoldable pub has_key : KeyValuePairs → String → Bool
has_key [] key = false
has_key (kvp ∷ kvps) key = ite (String_discrete kvp.name key) true (has_key kvps key)

-- The empty text where the key is missing.
unfoldable pub get_val : KeyValuePairs → String → String
get_val [] key = ""
get_val (kvp ∷ kvps) key = ite (String_discrete kvp.name key) kvp.value (get_val kvps key)

-- The first pair with the key is changed, or a pair is appended.
unfoldable pub set_val : KeyValuePairs → String → String → KeyValuePairs
set_val [] key val = record { name = key; value = val } ∷ []
set_val (kvp ∷ kvps) key val =
    let rest = set_val kvps key val in
    ite (String_discrete kvp.name key) (record kvp { value = val } ∷ kvps) (kvp ∷ rest)

unfoldable pub merge : KeyValuePairs → KeyValuePairs → KeyValuePairs
merge kvps [] = kvps
merge kvps (kvp ∷ more) = merge (set_val kvps kvp.name kvp.value) more

map_to_kvps_from : KeyValuePairs → Map String String → KeyValuePairs
map_to_kvps_from kvps [] = kvps
map_to_kvps_from kvps ((k, v) ∷ m) = map_to_kvps_from (set_val kvps k v) m

unfoldable pub map_to_kvps : Map String String → KeyValuePairs
unfolding map_to_kvps_from
map_to_kvps m = map_to_kvps_from [] m
