-- ===== src/Realm/ImportJob/Env.antt =====
-- The variables of the import job, against those of the stateful set.
use text.Mathlib.TextPositions.{eq_refl}
use rhbk_operator.Prelude.{
  String, ◌≡◌, refl, Option, none, some, List, [], ◌∷◌, ◌++◌, arith, ◌==◌, eq_iff, if◌then◌else◌,
  Bool-cases, false, subst, ap, sym, ◌∙◌, inl, inr,
}
use rhbk_operator.Kube.Pod.{EnvVar, env_value}
use rhbk_operator.Resources.Env.Laws.{find_env}
use rhbk_operator.Realm.ImportJob.{modify_env, job_env}

-- The value that the job gives to a variable that the stateful set has.
abbrev pub job_value : String → Option EnvVar → Option EnvVar
job_value name none = none
job_value name (some v) =
    if "KC_CACHE" == name
    then some (env_value name "local")
    else if "KC_HEALTH_ENABLED" == name
    then some (env_value name "false")
    else if "KC_CACHE_STACK" == name
    then none
    else some v

hit :
    (v : EnvVar) (rest : List EnvVar) (o : Option EnvVar)
    → find_env v.name rest ≡ job_value v.name o
    → find_env v.name (modify_env v ++ rest) ≡ job_value v.name (some v)
unfolding find_env modify_env
hit v rest none e = ground (arith, eq_refl v.name)
hit v rest (some w) e = ground (arith, eq_refl v.name)

miss :
    (name : String) (v : EnvVar) (rest : List EnvVar)
    → (v.name == name) ≡ false
    → find_env name (modify_env v ++ rest) ≡ find_env name rest
unfolding find_env modify_env
miss name v rest e = ground arith

find-first : (v : EnvVar) (vars : List EnvVar) → find_env v.name (v ∷ vars) ≡ some v
unfolding find_env
find-first v vars = rw (eq_refl v.name)

find-other :
    (name : String) (v : EnvVar) (vars : List EnvVar)
    → (v.name == name) ≡ false
    → find_env name (v ∷ vars) ≡ find_env name vars
unfolding find_env
find-other name v vars e = rw e

-- The job runs with a local cache, no health checks and no cache stack; it sees every other variable
-- as the stateful set does, and none that the stateful set has not.
pub find-job_env :
    (name : String) (vars : List EnvVar)
    → find_env name (job_env vars) ≡ job_value name (find_env name vars)
unfolding job_env
find-job_env name [] = unfold find_env in refl
find-job_env name (v ∷ vars) = elim (Bool-cases (v.name == name)) [
  | inl same ↦
      subst (λ n. find_env n (modify_env v ++ job_env vars) ≡ job_value n (find_env n (v ∷ vars)))
        ((eq_iff v.name name).0 same)
        (rw (find-first v vars)
          (hit v (job_env vars) (find_env v.name vars) (find-job_env v.name vars)))
  | inr other ↦
      miss name v (job_env vars) other
      ∙ (find-job_env name vars ∙ ap (job_value name) (sym (find-other name v vars other)))
]
