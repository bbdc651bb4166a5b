-- ===== src/Resources/Env.antt =====
-- `AddOrReplaceEnv` of internal/resources/utils.go.
pub mod Laws
use rhbk_operator.Prelude.{List, [], ◌∷◌, ◌==◌, if◌then◌else◌}
use rhbk_operator.Kube.Pod.{EnvVar}

-- The loop stops at the first variable of the name and overwrites it; with none it appends.
unfoldable pub add_or_replace_env : EnvVar → List EnvVar → List EnvVar
add_or_replace_env env [] = env ∷ []
add_or_replace_env env (env_var ∷ vars) =
    if env_var.name == env.name then env ∷ vars else env_var ∷ add_or_replace_env env vars
