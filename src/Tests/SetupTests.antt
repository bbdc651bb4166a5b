-- ===== src/Tests/SetupTests.antt =====
-- The kinds that the two controllers register for, in a builder that writes them down.
use rhbk_operator.Prelude.{◌≡◌, refl, List, [], ◌∷◌}
use rhbk_operator.Prelude.Outcome.{ok}
use rhbk_operator.Kube.Libs.{Libs}
use rhbk_operator.Kube.Client.{Client}
use rhbk_operator.Api.Conditions.{ConditionLib}
use rhbk_operator.Controller.Setup.{
  Watched, keycloaks, imports, services, routes, service_monitors, stateful_sets, MapFunc, from_job,
  from_keycloak, from_secret, Builder, set_up_keycloak, set_up_import,
}

data Line : Type 0 where
  own : Watched → Line
  other_job other_keycloak other_secret : Line

abbrev line_of : {W : Type 0} → MapFunc W → Line
line_of (from_job f) = other_job
line_of (from_keycloak f) = other_keycloak
line_of (from_secret f) = other_secret

abbrev notes : Builder (List Line) (Unit {0}) (List Line)
notes = record {
  new_controller = λ mgr. [];
  for_kind = λ kind predicate b. own kind ∷ b;
  owns = λ kind predicate b. own kind ∷ b;
  watches = λ f predicate b. line_of f ∷ b;
  complete = λ reconciler b w. (ok tt, b);
}

registered :
    (client : Client (List Line)) (libs : Libs) (lib : ConditionLib)
    → (set_up_keycloak notes client libs lib tt [] ≡ (
      ok tt,
      own stateful_sets ∷ own service_monitors ∷ own routes ∷ own services ∷ own keycloaks ∷ [],
    ))
      × (set_up_import notes client libs lib tt []
          ≡ (ok tt, other_secret ∷ other_keycloak ∷ other_job ∷ own imports ∷ []))
unfolding set_up_keycloak set_up_import
registered client libs lib = (refl, refl)
