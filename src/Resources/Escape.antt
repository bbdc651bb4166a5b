-- ===== src/Resources/Escape.antt =====
-- `EscapeString` of internal/resources/utils.go, with the string encoder of Go's encoding/json that
-- it calls. A value is a sequence of characters, so an input that is not valid UTF-8 is not covered.
pub mod Decode
pub mod Roundtrip
use Prim.Native.Char.{Char, code}
use Prim.Native.String.{char_at, ◌++◌}
use text.Mathlib.Text.{starts_with}
use rhbk_operator.Prelude.{
  ℕ, ◌/◌, ◌%◌, String, Bool, ◌||◌, [], ◌∷◌, ltb, eqb, if◌then◌else◌, concat,
}
use rhbk_operator.Prelude.Outcome.{Outcome, ok}

-- strings.Contains(s, substr)
unfoldable pub contains : String → String → Bool
contains String.[] substr = starts_with String.[] substr
contains (String.◌∷◌ c s) substr = starts_with (String.◌∷◌ c s) substr || contains s substr

-- The local `hex` of encoding/json.
unfoldable pub hex_digit : ℕ → Char
hex_digit n = char_at "0123456789abcdef" n

abbrev pub one_char : Char → String
one_char c = String.◌∷◌ c String.[]

-- A character below 0x20 with no short form, and `<`, `>`, `&`.
unfoldable pub unicode_escape : ℕ → String
unfolding hex_digit
unicode_escape n =
    concat ("\\u00" ∷ one_char (hex_digit (n / 16)) ∷ one_char (hex_digit (n % 16)) ∷ [])

-- `htmlSafeSet` says false: quotes, backslashes, `<`, `>`, `&` and the control characters.
unfoldable pub escape_char : Char → String
unfolding unicode_escape
escape_char c =
    let n = code c in
    if eqb n b'\\'
    then "\\\\"
    else if eqb n b'"'
    then "\\\""
    else if eqb n 8
    then "\\b"
    else if eqb n 12
    then "\\f"
    else if eqb n 10
    then "\\n"
    else if eqb n 13
    then "\\r"
    else if eqb n 9
    then "\\t"
    else if ltb n 32 || (eqb n b'<' || (eqb n b'>' || eqb n b'&'))
    then unicode_escape n
    else if eqb n 0x2028
    then "\\u2028"
    else if eqb n 0x2029
    then "\\u2029"
    else one_char c

-- The text between the quotes of json.Marshal(value), which has no error for a string.
unfoldable pub marshal_string : String → String
unfolding escape_char
marshal_string String.[] = String.[]
marshal_string (String.◌∷◌ c s) = escape_char c ++ marshal_string s

unfoldable pub is_pem : String → Bool
unfolding contains
is_pem value = contains value "-----BEGIN" || contains value "-----END"

unfoldable pub escape_string : String → Outcome String
unfolding is_pem marshal_string
escape_string value = if is_pem value then ok value else ok (marshal_string value)
