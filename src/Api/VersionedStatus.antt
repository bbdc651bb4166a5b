-- ===== src/Api/VersionedStatus.antt =====
-- api/v1alpha1/versioned_status.go: the hashes of objects, kept by key. What reflection sees of a Go
-- value is a pointer, a struct with its fields (promoted ones included), or something else; JSON,
-- formatting, MD5 and base64 are the parameter `Hashing`.
use rhbk_operator.Prelude.{
  String, ◌≡◌, refl, ◌∙◌, Bool, Bool-cases, inl, inr, true, false, Option, none, some, [], ◌==◌,
  if◌then◌else◌,
}
use rhbk_operator.Prelude.Maps.{Map, lookup, insert, lookup-insert}
use rhbk_operator.Prelude.Outcome.{Outcome, ok, err, panic}

mutual
  pub data Value : Type 0 where
    pointer : Value → Value
    nil_pointer : Value
    structure : Fields → Value
    other : String → Value

  pub data Fields : Type 0 where
    no_fields : Fields
    field : (name : String) → Value → Fields → Fields

pub record Hashing : Type 0 where
  -- json.Marshal, and fmt.Sprintf("%v", …)
  pub marshal : Value → Outcome String
  pub format : Value → String
  -- base64 of the MD5 sum
  pub digest : String → String

-- `ResourceVersions`, where `none` is the nil map.
pub record VersionedStatus : Type 0 where
  pub resource_versions : Option (Map String)

-- v.FieldByName(name)
unfoldable pub field_by_name : String → Fields → Option Value
field_by_name name no_fields = none
field_by_name name (field own value rest) =
    if own == name then some value else field_by_name name rest

-- `v = v.Elem()` for a pointer; a nil pointer has no element.
unfoldable pub dereference : Value → Option Value
dereference (pointer v) = some v
dereference nil_pointer = none
dereference (structure fs) = some (structure fs)
dereference (other text) = some (other text)

unfoldable pub spec_of : Option Value → Option Value
unfolding field_by_name
spec_of none = none
spec_of (some (pointer v)) = none
spec_of (some nil_pointer) = none
spec_of (some (structure fs)) = field_by_name "Spec" fs
spec_of (some (other text)) = none

-- `ExtractSpec(obj)`: `none` is the answer with `false`.
unfoldable pub extract_spec : Value → Option Value
unfolding dereference spec_of
extract_spec obj = spec_of (dereference obj)

unfoldable pub hashable : Value → Value
unfolding extract_spec
hashable obj = elim (extract_spec obj) [ none ↦ obj | some spec ↦ spec ]

module _ (hashing : Hashing) where
  -- `objString`: where there is no JSON, the formatted value.
  unfoldable pub object_string : Value → Outcome String
  object_string v = elim (hashing.marshal v) [
    | ok bytes ↦ ok bytes
    | err e ↦ ok (hashing.format v)
    | panic ↦ panic
  ]

  unfoldable pub compute_hash : Value → Outcome String
  unfolding hashable object_string
  compute_hash obj = elim (object_string (hashable obj)) [
    | ok text ↦ ok (hashing.digest text)
    | err e ↦ err e
    | panic ↦ panic
  ]

  unfoldable pub entries_of : VersionedStatus → Map String
  entries_of s = elim s.resource_versions [ none ↦ [] | some m ↦ m ]

  -- `s.UpdateVersion(key, obj)`
  unfoldable pub update_version : VersionedStatus → String → Value → Outcome VersionedStatus
  unfolding compute_hash entries_of insert
  update_version s key obj = elim (compute_hash obj) [
    | ok hash ↦ ok (record { resource_versions = some (insert key hash (entries_of s)) })
    | err e ↦ err e
    | panic ↦ panic
  ]

  -- `s.HasBeenUpdated(key, obj)`: the hash is computed only where the key is there.
  unfoldable pub has_been_updated : VersionedStatus → String → Value → Outcome Bool
  unfolding compute_hash entries_of lookup
  has_been_updated s key obj = elim (lookup key (entries_of s)) [
    | none ↦ ok false
    | some current ↦ elim (compute_hash obj) [
      | ok hash ↦ ok (current == hash)
      | err e ↦ err e
      | panic ↦ panic
    ]
  ]

  -- After an object with a hash was recorded under a key: an object is found unchanged under this key
  -- just if its hash is the same, and under every other key the answer is what it was before.
  pub has_been_updated-update_version :
      (s : VersionedStatus) (written read : String) (obj seen : Value) {hash now : String}
      → compute_hash obj ≡ ok hash
      → compute_hash seen ≡ ok now
      → (after : VersionedStatus) × (update_version s written obj ≡ ok after)
        × (has_been_updated after read seen
            ≡ (if written == read then ok (hash == now) else has_been_updated s read seen))
  unfolding update_version has_been_updated entries_of
  has_been_updated-update_version s written read obj seen {hash} {now} e f = (
    record { resource_versions = some (insert written hash (entries_of s)) },
    rw (update_version, e) refl,
    elim (Bool-cases (written == read)) [
      | inl b ↦ rw (b, has_been_updated, found b, f) refl
      | inr b ↦ rw (b, has_been_updated, missed b) refl
    ],
  )
    where
      found :
          (written == read) ≡ true → lookup read (insert written hash (entries_of s)) ≡ some hash
      found b = lookup-insert written read hash (entries_of s) ∙ rw b refl

      missed :
          (written == read) ≡ false
          → lookup read (insert written hash (entries_of s)) ≡ lookup read (entries_of s)
      missed b = lookup-insert written read hash (entries_of s) ∙ rw b refl
