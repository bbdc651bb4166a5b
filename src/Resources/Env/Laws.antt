-- ===== src/Resources/Env/Laws.antt =====
-- What a container sees of its variables: a name is looked up, and stands at most once.
use mathlib.Core.Path.{subst}
use rhbk_operator.Prelude.{
  Bool-cases, inl, inr, String, ◌≡◌, ◌≢◌, refl, Option, none, some, List, [], ◌∷◌, All, arith, ◌==◌,
  eq_iff, if◌then◌else◌,
}
use rhbk_operator.Kube.Pod.{EnvVar}
use rhbk_operator.Resources.Env.{add_or_replace_env}

unfoldable pub find_env : String → List EnvVar → Option EnvVar
find_env name [] = none
find_env name (v ∷ vars) = if v.name == name then some v else find_env name vars

-- Every name stands once.
abbrev pub Lacks : String → List EnvVar → Type 0
Lacks name = All (λ (v : EnvVar). v.name ≢ name)

abbrev pub HasUniqueNames : List EnvVar → Type 0
HasUniqueNames [] = Unit {0}
HasUniqueNames (v ∷ vars) = Lacks v.name vars × HasUniqueNames vars

-- The variable is the one of its name; every other name keeps its variable.
pub find-add_or_replace :
    (env : EnvVar) (name : String) (vars : List EnvVar)
    → find_env name (add_or_replace_env env vars)
      ≡ (if env.name == name then some env else find_env name vars)
unfolding find_env add_or_replace_env
find-add_or_replace env name [] = refl
find-add_or_replace env name (v ∷ vars) = ground (
  arith,
  eq_iff v.name env.name,
  eq_iff v.name name,
  eq_iff env.name name,
  find-add_or_replace env name vars,
)

Lacks-add_or_replace :
    (env : EnvVar) (name : String) (vars : List EnvVar)
    → env.name ≢ name
    → Lacks name vars
    → Lacks name (add_or_replace_env env vars)
unfolding add_or_replace_env
Lacks-add_or_replace env name [] h l = (h, tt)
Lacks-add_or_replace env name (v ∷ vars) h l =
    ground (arith, eq_iff v.name env.name, Lacks-add_or_replace env name vars h l.1)

pub HasUniqueNames-add_or_replace :
    (env : EnvVar) (vars : List EnvVar)
    → HasUniqueNames vars
    → HasUniqueNames (add_or_replace_env env vars)
unfolding add_or_replace_env
HasUniqueNames-add_or_replace env [] u = (tt, tt)
HasUniqueNames-add_or_replace env (v ∷ vars) u = elim (Bool-cases (v.name == env.name)) [
  | inl same ↦ rw same (subst (λ n. Lacks n vars) ((eq_iff v.name env.name).0 same) u.0, u.1)
  | inr other ↦ rw other (
    Lacks-add_or_replace env v.name vars (λ e. ground (arith, eq_iff v.name env.name)) u.0,
    HasUniqueNames-add_or_replace env vars u.1,
  )
]
