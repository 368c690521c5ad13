-- ===== src/KeyValues/Laws.antt =====
-- The laws of KeyValuePairs as a table from names to values.
use cloudcompute.Base.{
  String, List, [], ◌∷◌, true, ite, String_discrete, ◌≡◌, refl, ◌||◌, arith, has, Distinct, Option,
  none, some,
}
use cloudcompute.Base.Maps.{Map, keys, lookup, lookup-absent}
use cloudcompute.Manifest.{KeyValuePairs}
use cloudcompute.KeyValues.{has_key, get_val, set_val, merge, map_to_kvps, map_to_kvps_from}

abbrev pub names : KeyValuePairs → List String
names [] = []
names (kvp ∷ kvps) = kvp.name ∷ names kvps

pub get_val-set_val :
    (kvps : KeyValuePairs) (key val j : String)
    → get_val (set_val kvps key val) j ≡ ite (String_discrete key j) val (get_val kvps j)
unfolding get_val set_val
get_val-set_val [] key val j = refl
get_val-set_val (kvp ∷ kvps) key val j = ground (arith, get_val-set_val kvps key val j)

pub has_key-set_val :
    (kvps : KeyValuePairs) (key val j : String)
    → has_key (set_val kvps key val) j ≡ ite (String_discrete key j) true (has_key kvps j)
unfolding has_key set_val
has_key-set_val [] key val j = refl
has_key-set_val (kvp ∷ kvps) key val j = ground (arith, has_key-set_val kvps key val j)

pub has_key-names :
    (kvps : KeyValuePairs) (key : String) → has_key kvps key ≡ has String_discrete key (names kvps)
unfolding has_key
has_key-names [] key = refl
has_key-names (kvp ∷ kvps) key = ground (arith, has_key-names kvps key)

-- Names that stood once each stand once each after `SetVal`.
pub set_val-Distinct :
    (kvps : KeyValuePairs) (key val : String)
    → Distinct String_discrete (names kvps)
    → Distinct String_discrete (names (set_val kvps key val))
unfolding set_val
set_val-Distinct [] key val h = (refl, tt)
set_val-Distinct (kvp ∷ kvps) key val h = ground (
  arith,
  set_val-Distinct kvps key val,
  has_key-names (set_val kvps key val) kvp.name,
  has_key-names kvps kvp.name,
  has_key-set_val kvps key val kvp.name,
)

-- The value that the last pair with the name holds.
abbrev pub last_val : KeyValuePairs → String → Option String
last_val [] key = none
last_val (kvp ∷ kvps) key = elim (last_val kvps key) [
  | some v ↦ some v
  | none ↦ ite (String_discrete kvp.name key) (some kvp.value) none
]

abbrev pub or_else : Option String → String → String
or_else none d = d
or_else (some v) d = v

-- After `Merge` a name has the value of the last pair of the argument that carries it, and its old
-- value where none does; it is there if it was, or if the argument has it.
pub merge_lem :
    (kvps more : KeyValuePairs) (j : String)
    → (get_val (merge kvps more) j ≡ or_else (last_val more j) (get_val kvps j))
      × (has_key (merge kvps more) j ≡ (has_key kvps j || has_key more j))
unfolding merge has_key
merge_lem kvps [] j = (refl, ground arith)
merge_lem kvps (kvp ∷ more) j =
    let next = merge_lem (set_val kvps kvp.name kvp.value) more j in
    ground (
      arith,
      next.0,
      next.1,
      get_val-set_val kvps kvp.name kvp.value j,
      has_key-set_val kvps kvp.name kvp.value j,
    )

-- `Merge` adds no name twice.
pub merge-Distinct :
    (kvps more : KeyValuePairs)
    → Distinct String_discrete (names kvps)
    → Distinct String_discrete (names (merge kvps more))
unfolding merge
merge-Distinct kvps [] h = h
merge-Distinct kvps (kvp ∷ more) h =
    merge-Distinct (set_val kvps kvp.name kvp.value) more
      (set_val-Distinct kvps kvp.name kvp.value h)

from-Distinct :
    (kvps : KeyValuePairs) (m : Map String String)
    → Distinct String_discrete (names kvps)
    → Distinct String_discrete (names (map_to_kvps_from kvps m))
unfolding map_to_kvps_from
from-Distinct kvps [] h = h
from-Distinct kvps ((k, v) ∷ m) h = from-Distinct (set_val kvps k v) m (set_val-Distinct kvps k v h)

map-from :
    (kvps : KeyValuePairs) (m : Map String String) (j : String)
    → Distinct String_discrete (keys m)
    → (get_val (map_to_kvps_from kvps m) j ≡ or_else (lookup String_discrete j m) (get_val kvps j))
      × (has_key (map_to_kvps_from kvps m) j ≡ (has_key kvps j || has String_discrete j (keys m)))
unfolding map_to_kvps_from
map-from kvps [] j d = ground arith
map-from kvps ((k, v) ∷ m) j d =
    let next = map-from (set_val kvps k v) m j d.1 in
    ground (
      arith,
      next.0,
      next.1,
      get_val-set_val kvps k v j,
      has_key-set_val kvps k v j,
      lookup-absent String_discrete k m,
    )

-- `MapToKeyValuePairs` holds what the map holds, and no name twice.
pub map_to_kvps_lem :
    (m : Map String String) (j : String)
    → Distinct String_discrete (keys m)
    → (get_val (map_to_kvps m) j ≡ or_else (lookup String_discrete j m) "")
      × (has_key (map_to_kvps m) j ≡ has String_discrete j (keys m))
      × Distinct String_discrete (names (map_to_kvps m))
unfolding map_to_kvps get_val has_key
map_to_kvps_lem m j d = let (val, known) = map-from [] m j d in (val, known, from-Distinct [] m tt)
