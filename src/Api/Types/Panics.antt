-- ===== src/Api/Types/Panics.antt =====
-- Where `HasSecretReference` panics: at a substitution that gives a value and no secret.
use rhbk_operator.Prelude.{
  String, ◌≡◌, ◌≢◌, refl, ap, ◌∙◌, false, none, some, List, [], ◌∷◌, ◌++◌, All, arith, eq_iff, ◌==◌,
}
use rhbk_operator.Prelude.Outcome.{panic}
use rhbk_operator.Kube.Pod.{SecretKeySelector}
use rhbk_operator.Api.Types.{
  SecretOptionVar, KeycloakImportSpec, references_secret, has_secret_reference,
}

-- The substitution takes its value from some other secret.
abbrev pub RefersElsewhere : String → SecretOptionVar → Type 0
RefersElsewhere name v = (s : SecretKeySelector) × (v.secret ≡ some s) × (s.name ≢ name)

other_name : (s t : String) → s ≢ t → (s == t) ≡ false
other_name s t h = ground (arith, eq_iff s t)

references_secret-passes :
    (before rest : List SecretOptionVar) (name : String)
    → All (RefersElsewhere name) before
    → references_secret (before ++ rest) name ≡ references_secret rest name
unfolding references_secret
references_secret-passes [] rest name other = refl
references_secret-passes (v ∷ before) rest name ((s, e, ne), other) =
    rw (e, other_name s.name name ne, references_secret-passes before rest name other)

-- `HasSecretReference` panics where a substitution that has no secret stands behind others that refer
-- to secrets of other names, whatever comes after it.
pub has_secret_reference-panic :
    (ki : KeycloakImportSpec) (before rest : List SecretOptionVar) (v : SecretOptionVar)
    (name : String)
    → ki.substitutions ≡ before ++ v ∷ rest
    → All (RefersElsewhere name) before
    → v.secret ≡ none
    → has_secret_reference ki name ≡ panic
unfolding has_secret_reference references_secret
has_secret_reference-panic ki before rest v name e other missing =
    ap (λ l. references_secret l name) e
    ∙ references_secret-passes before (v ∷ rest) name other
    ∙ rw missing
