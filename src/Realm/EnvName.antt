-- ===== src/Realm/EnvName.antt =====
-- `ConvertToEnvName` of internal/resources/realm/providers_import_init_container.go.
pub mod Laws
use Prim.Native.Char.{Char, code}
use Prim.Native.String.{char_at}
use rhbk_operator.Prelude.{ℕ, ◌-◌, String, Bool, ◌&&◌, ◌||◌, leb, eqb, if◌then◌else◌}
use rhbk_operator.Prelude.Outcome.{Outcome, ok, panic, ◌>>=◌}

abbrev pub within : ℕ → ℕ → ℕ → Bool
within lo hi n = leb lo n && leb n hi

abbrev pub is_digit : ℕ → Bool
is_digit n = within b'0' b'9' n

abbrev pub is_lower : ℕ → Bool
is_lower n = within b'a' b'z' n

abbrev pub is_upper : ℕ → Bool
is_upper n = within b'A' b'Z' n

-- The characters that `[^a-zA-Z0-9_]` leaves alone.
unfoldable pub is_word : ℕ → Bool
is_word n = is_lower n || (is_upper n || (is_digit n || eqb n b'_'))

-- re.ReplaceAllString(input, "_")
unfoldable pub sanitize : String → String
unfolding is_word
sanitize String.[] = String.[]
sanitize (String.◌∷◌ c s) = String.◌∷◌ (if is_word (code c) then c else "_") (sanitize s)

-- unicode.ToUpper on an ASCII character
unfoldable pub upper_char : Char → Char
upper_char c = if is_lower (code c) then char_at "ABCDEFGHIJKLMNOPQRSTUVWXYZ" (code c - b'a') else c

-- strings.ToUpper
unfoldable pub to_upper : String → String
unfolding upper_char
to_upper String.[] = String.[]
to_upper (String.◌∷◌ c s) = String.◌∷◌ (upper_char c) (to_upper s)

-- The test on `sanitized[0]`, an index out of range if there is none.
unfoldable pub guard_digit : String → Outcome String
guard_digit String.[] = panic
guard_digit (String.◌∷◌ c s) =
    ok (if is_digit (code c) then String.◌∷◌ "_" (String.◌∷◌ c s) else String.◌∷◌ c s)

unfoldable pub convert_to_env_name : String → Outcome String
unfolding sanitize to_upper guard_digit
convert_to_env_name input = do sanitized ← guard_digit (sanitize input); ok (to_upper sanitized)
