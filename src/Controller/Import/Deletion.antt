-- ===== src/Controller/Import/Deletion.antt =====
-- The deletion of an import.
use rhbk_operator.Prelude.{◌≡◌, refl, true, List, ◌∷◌}
use rhbk_operator.Prelude.Outcome.{Error, ok, err}
use rhbk_operator.Kube.Libs.{Libs, TracksFinalizers}
use rhbk_operator.Kube.Client.{Client}
use rhbk_operator.Kube.Recording.{Event, updated_import, recording}
use rhbk_operator.Api.Types.{KeycloakImport}
use rhbk_operator.Api.Conditions.{ConditionLib}
use rhbk_operator.Controller.Reply.{failed}
use rhbk_operator.Controller.Import.{
  realm_import_finalizer, cleanup_external_resources, ensure_finalizer, handle_deletion,
}

-- The import without the finalizer, and with it again.
abbrev pub released : Libs → KeycloakImport → KeycloakImport
released libs cr = record cr { meta = libs.remove_finalizer cr.meta realm_import_finalizer }

abbrev pub held : Libs → KeycloakImport → KeycloakImport
held libs cr = record cr { meta = libs.add_finalizer cr.meta realm_import_finalizer }

-- An import with the finalizer is deleted, its jobs and secrets were removed, and the server takes the
-- update that removes the finalizer: where the finalizer library keeps its laws, the reconciler then
-- asks the server to add the finalizer again, and when the server refuses this, it answers with the
-- error of the server.
pub handle_deletion-held :
    {W : Type 0} (client : Client W) (libs : Libs) (lib : ConditionLib) (cr : KeycloakImport)
    (w w' w₁ w₂ : W) (log log' : List Event) (e : Error)
    → TracksFinalizers libs
    → libs.contains_finalizer cr.meta realm_import_finalizer ≡ true
    → cleanup_external_resources (recording client) libs lib cr (w, log) ≡ (ok tt, (w', log'))
    → client.update_import (released libs cr) w' ≡ (ok (released libs cr), w₁)
    → client.update_import (held libs (released libs cr)) w₁ ≡ (err e, w₂)
    → handle_deletion (recording client) libs lib cr (w, log) ≡ (
      ok (failed e),
      (
        w₂,
        updated_import (held libs (released libs cr)) (err e)
            ∷ updated_import (released libs cr) (ok (released libs cr))
            ∷ log',
      ),
    )
unfolding handle_deletion ensure_finalizer
handle_deletion-held client libs lib cr w w' w₁ w₂ log log' e tracks has cleaned taken refused =
    rw (has, cleaned, taken, tracks.contains-remove cr.meta realm_import_finalizer, refused) refl
