-- ===== src/Resources/Labels.antt =====
-- The label helpers of internal/resources/utils.go.
use rhbk_operator.Prelude.{String, Bool, Option, none, some, [], ◌∷◌}
use rhbk_operator.Prelude.Maps.{Map, insert}
use rhbk_operator.Kube.Libs.{Libs}
use rhbk_operator.Resources.Constants.{rhbk_import_owner_label, rhbk_import_namespace_label}

-- `DecorateDefaultLabels(existing)` writes into the caller's map. The map that it makes for a nil
-- argument is a local one: the caller's stays nil.
unfoldable pub decorate_default_labels : Option (Map String) → Option (Map String)
decorate_default_labels none = none
decorate_default_labels (some existing) = some (insert "app" "rhbk" existing)

-- `MatchSet(set1, set2)`
unfoldable pub match_set : Libs → Option (Map String) → Map String → Bool
match_set libs set1 set2 = libs.selects set2 set1

-- `GetOwnerLabels(ownerName, ownerNamespace)`
unfoldable pub get_owner_labels : String → String → Map String
get_owner_labels owner_name owner_namespace =
    (rhbk_import_owner_label, owner_name) ∷ (rhbk_import_namespace_label, owner_namespace) ∷ []
