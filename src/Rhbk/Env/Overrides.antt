-- ===== src/Rhbk/Env/Overrides.antt =====
-- The options of the custom resource override the operator's own variables.
use rhbk_operator.Prelude.{
  String, ◌≡◌, refl, Option, none, some, List, [], ◌∷◌, arith, ◌==◌, if◌then◌else◌,
}
use rhbk_operator.Kube.Pod.{EnvVar}
use rhbk_operator.Api.Types.{SecretOptionVar}
use rhbk_operator.Resources.Env.{add_or_replace_env}
use rhbk_operator.Resources.Env.Laws.{find_env, find-add_or_replace}
use rhbk_operator.Rhbk.Env.{replacement, add_options}

-- The last option of the name.
unfoldable pub last_option : String → List SecretOptionVar → Option SecretOptionVar
last_option name [] = none
last_option name (o ∷ options) = elim (last_option name options) [
  | some later ↦ some later
  | none ↦ if o.name == name then some o else none
]

abbrev pub overriding : Option SecretOptionVar → Option EnvVar → Option EnvVar
overriding none own = own
overriding (some o) own = some (replacement o)

name-replacement : (o : SecretOptionVar) → (replacement o).name ≡ o.name
unfolding replacement
name-replacement o = ground arith

-- A variable is that of the last option of its name; without one it is the operator's own.
pub find-add_options :
    (name : String) (options : List SecretOptionVar) (vars : List EnvVar)
    → find_env name (add_options options vars)
      ≡ overriding (last_option name options) (find_env name vars)
unfolding add_options last_option
find-add_options name [] vars = refl
find-add_options name (o ∷ options) vars = ground (
  arith,
  find-add_options name options (add_or_replace_env (replacement o) vars),
  find-add_or_replace (replacement o) name vars,
  name-replacement o,
)
