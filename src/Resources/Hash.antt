-- ===== src/Resources/Hash.antt =====
-- `GetHash` and `FormatResource` of internal/resources/utils.go, which no other code calls. The
-- standard library's hash/fnv is written out; JSON and `%v` are parameters.
use Prim.Native.Char.{code}
use Prim.Native.Nat.{bit_xor}
use Prim.Native.String.{◌++◌}
use rhbk_operator.Prelude.{ℕ, ◌+◌, ◌*◌, ◌/◌, ◌%◌, ◌^◌, String, List, [], ◌∷◌, ltb, if◌then◌else◌}
use rhbk_operator.Prelude.Outcome.{Outcome, ok, err, panic}

-- The bytes of a character in UTF-8.
unfoldable pub utf_8 : ℕ → List ℕ
utf_8 n =
    if ltb n 0x80
    then n ∷ []
    else if ltb n 0x800
    then (0xc0 + n / 0x40) ∷ (0x80 + n % 0x40) ∷ []
    else if ltb n 0x10000
    then (0xe0 + n / 0x1000) ∷ (0x80 + n / 0x40 % 0x40) ∷ (0x80 + n % 0x40) ∷ []
    else (0xf0 + n / 0x40000)
      ∷ (0x80 + n / 0x1000 % 0x40)
      ∷ (0x80 + n / 0x40 % 0x40)
      ∷ (0x80 + n % 0x40)
      ∷ []

-- `Write` of a 32-bit FNV-1a hash.
unfoldable pub hash_bytes : ℕ → List ℕ → ℕ
hash_bytes hash [] = hash
hash_bytes hash (byte ∷ bytes) = hash_bytes (bit_xor hash byte * 16777619 % 2 ^ 32) bytes

unfoldable pub hash_text : ℕ → String → ℕ
unfolding hash_bytes utf_8
hash_text hash String.[] = hash
hash_text hash (String.◌∷◌ c s) = hash_text (hash_bytes hash (utf_8 (code c))) s

-- `Write` has no error to return.
unfoldable pub get_hash : String → Outcome ℕ
unfolding hash_text
get_hash s = ok (hash_text 2166136261 s)

module _ {A : Type 0} (marshal_indent : A → Outcome String) (format_value : A → String) where
  unfoldable pub format_resource : A → Outcome String
  format_resource obj = elim (marshal_indent obj) [
    | ok json_data ↦ ok json_data
    | err e ↦ ok (format_value obj ++ "\n")
    | panic ↦ panic
  ]
