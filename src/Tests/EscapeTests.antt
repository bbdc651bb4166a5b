-- ===== src/Tests/EscapeTests.antt =====
-- The table of internal/resources/utils_test.go, run on the model.
use rhbk_operator.Prelude.{String, ◌≡◌, refl, some}
use rhbk_operator.Prelude.Outcome.{ok}
use rhbk_operator.Resources.Escape.{escape_string, is_pem}
use rhbk_operator.Resources.Escape.Decode.{codes, decode}
use rhbk_operator.Resources.Escape.Roundtrip.{decode-escape_string}
use rhbk_operator.Realm.EnvName.{convert_to_env_name}

escapes :
    (escape_string "password123" ≡ ok "password123")
    × (escape_string "pass\"word" ≡ ok "pass\\\"word")
    × (escape_string "pass\\word" ≡ ok "pass\\\\word")
    × (escape_string "P@ssw0rd!@#$%^&*()" ≡ ok "P@ssw0rd!@#$%^\\u0026*()")
    × (escape_string "<=>?@[]" ≡ ok "\\u003c=\\u003e?@[]")
    × (escape_string "a\nb" ≡ ok "a\\nb")
    × (escape_string "-----BEGIN K\"" ≡ ok "-----BEGIN K\"")
unfolding escape_string
escapes = (refl, refl, refl, refl, refl, refl, refl)

env_names :
    (convert_to_env_name "my-provider.jar" ≡ ok "MY_PROVIDER_JAR")
    × (convert_to_env_name "2fa" ≡ ok "_2FA")
unfolding convert_to_env_name
env_names = (refl, refl)

decode-escape_string_example :
    (text : String) × (escape_string "a\"<\n\\" ≡ ok text) × (decode text ≡ some (codes "a\"<\n\\"))
unfolding is_pem
decode-escape_string_example = decode-escape_string "a\"<\n\\" refl
