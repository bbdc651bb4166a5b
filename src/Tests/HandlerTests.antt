-- ===== src/Tests/HandlerTests.antt =====
-- The handlers of secrets and instances, on a cluster whose imports take their substitutions from
-- secrets.
use rhbk_operator.Prelude.{ℕ, ◌≡◌, refl, List, [], ◌∷◌}
use rhbk_operator.Prelude.Outcome.{ok}
use rhbk_operator.Kube.Meta.{Key, named}
use rhbk_operator.Kube.Objects.{Secret}
use rhbk_operator.Kube.Client.{Client}
use rhbk_operator.Api.Types.{KeycloakImport}
use rhbk_operator.Controller.Watch.{handle_secret_changed, handle_rhbk_changed}
use rhbk_operator.Controller.Watch.Choices.{AreKeysOf}
use rhbk_operator.Controller.Watch.Handlers.{
  SecretConcerns, IsInstanceOf, handle_secret_changed-AreKeysOf, handle_rhbk_changed-AreKeysOf,
}
use rhbk_operator.Tests.World.{client_libs, selects_exactly}
use rhbk_operator.Tests.Cluster.{shop, keycloak, client, answer, selector}

abbrev shops : List KeycloakImport
shops = shop ∷ []

abbrev shop_client : Client ℕ
shop_client = record client { list_imports = answer (ok shops) }

abbrev password : Secret
password = record { meta = named "realm-secret" "team-a"; contents = [] }

handle_secret_changed-AreKeysOf_example :
    (keys : List Key) × (handle_secret_changed shop_client client_libs password 0 ≡ (ok keys, 1))
    × AreKeysOf (SecretConcerns password) shops keys
handle_secret_changed-AreKeysOf_example =
    handle_secret_changed-AreKeysOf shop_client client_libs password 0 1 shops selects_exactly
      (((selector, refl), tt), tt) refl

handle_rhbk_changed-AreKeysOf_example :
    (keys : List Key) × (handle_rhbk_changed shop_client client_libs keycloak 0 ≡ (ok keys, 1))
    × AreKeysOf (IsInstanceOf keycloak) shops keys
handle_rhbk_changed-AreKeysOf_example =
    handle_rhbk_changed-AreKeysOf shop_client client_libs keycloak 0 1 shops refl
