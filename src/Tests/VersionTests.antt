-- ===== src/Tests/VersionTests.antt =====
-- The hashes of objects, recorded and asked for.
use rhbk_operator.Prelude.{◌≡◌, refl, true, none}
use rhbk_operator.Prelude.Outcome.{ok, panic}
use rhbk_operator.Api.VersionedStatus.{
  Value, pointer, nil_pointer, structure, other, no_fields, field, Hashing, VersionedStatus,
  compute_hash, update_version, has_been_updated, has_been_updated-update_version,
}

-- Texts marshal to themselves, and nothing else does.
abbrev hashing : Hashing
hashing = record {
  marshal = λ v. elim v [
    | pointer w ↦ panic
    | nil_pointer ↦ ok "null"
    | structure fs ↦ panic
    | other text ↦ ok text
  ];
  format = λ v. "?";
  digest = λ text. text;
}

abbrev empty : VersionedStatus
empty = record { resource_versions = none }

abbrev with_spec : Value
with_spec = pointer (structure (field "Kind" (other "k") (field "Spec" (other "a") no_fields)))

-- The hash of the object is that of its spec.
has_been_updated-update_version_example :
    (after : VersionedStatus) × (update_version hashing empty "realm" with_spec ≡ ok after)
    × (has_been_updated hashing after "realm" (other "a") ≡ ok true)
unfolding compute_hash
has_been_updated-update_version_example =
    has_been_updated-update_version hashing empty "realm" "realm" with_spec (other "a") refl refl
