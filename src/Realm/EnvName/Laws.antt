-- ===== src/Realm/EnvName/Laws.antt =====
-- The names that `ConvertToEnvName` makes can be the names of variables in a shell.
use Prim.Native.Char.{Char, code}
use Prim.Native.String.{char_at}
use rhbk_operator.Prelude.{
  ℕ, ◌-◌, ◌<◌, String, ◌≡◌, ◌≢◌, refl, ap, Bool, Bool-cases, all_below, below, inl, inr, true,
  false, ◌&&◌, ◌||◌, eqb, arith, if◌then◌else◌,
}
use rhbk_operator.Prelude.Outcome.{ok, ◌>>=◌}
use rhbk_operator.Realm.EnvName.{
  is_digit, is_lower, is_upper, is_word, sanitize, upper_char, to_upper, guard_digit,
  convert_to_env_name,
}

-- A capital letter, a digit or an underscore.
abbrev pub is_env : ℕ → Bool
is_env n = is_upper n || (is_digit n || eqb n b'_')

-- Every character passes the test.
unfoldable pub every : (ℕ → Bool) → String → Bool
every test String.[] = true
every test (String.◌∷◌ c s) = test (code c) && every test s

unfoldable pub first_is_digit : String → Bool
first_is_digit String.[] = false
first_is_digit (String.◌∷◌ c s) = is_digit (code c)

both : (a b : Bool) → (a && b) ≡ true → (a ≡ true) × (b ≡ true)
both true b h = (refl, h)
both false b h = ground arith

abbrev capital : ℕ → ℕ
capital n = code (char_at "ABCDEFGHIJKLMNOPQRSTUVWXYZ" n)

is_upper-capital : (n : ℕ) → n < 26 → is_upper (capital n) ≡ true
unfolding all_below
is_upper-capital n h = below (λ n. is_upper (capital n)) 26 n refl h

lower_bound : (n : ℕ) → is_lower n ≡ true → n - b'a' < 26
lower_bound n h = ground arith

is_env-upper_char : (c : Char) → is_word (code c) ≡ true → is_env (code (upper_char c)) ≡ true
unfolding is_word upper_char
is_env-upper_char c h = elim (Bool-cases (is_lower (code c))) [
  | inl e ↦ rw e (ground (arith, is_upper-capital (code c - b'a') (lower_bound (code c) e)))
  | inr e ↦ rw e (ground arith)
]

not_digit-upper_char :
    (c : Char) → is_digit (code c) ≡ false → is_digit (code (upper_char c)) ≡ false
unfolding upper_char
not_digit-upper_char c h = elim (Bool-cases (is_lower (code c))) [
  | inl e ↦ rw e (ground (arith, is_upper-capital (code c - b'a') (lower_bound (code c) e)))
  | inr e ↦ rw e h
]

every-sanitize : (s : String) → every is_word (sanitize s) ≡ true
unfolding every sanitize
every-sanitize String.[] = refl
every-sanitize (String.◌∷◌ c s) = elim (Bool-cases (is_word (code c))) [
  | inl e ↦ rw (e, e, every-sanitize s) refl
  | inr e ↦ rw (e, every-sanitize s) refl
]

every-to_upper : (s : String) → every is_word s ≡ true → every is_env (to_upper s) ≡ true
unfolding every to_upper
every-to_upper String.[] h = refl
every-to_upper (String.◌∷◌ c s) h =
    let (one, rest) = both (is_word (code c)) (every is_word s) h in
    rw (is_env-upper_char c one, every-to_upper s rest) refl

abbrev is_empty : String → Bool
is_empty String.[] = true
is_empty (String.◌∷◌ c s) = false

nonempty-to_upper : (c : Char) (s : String) → to_upper (String.◌∷◌ c s) ≢ ""
unfolding to_upper
nonempty-to_upper c s e =
    let no : is_empty (to_upper (String.◌∷◌ c s)) ≡ is_empty "" = ap is_empty e in ground arith

-- The last two steps of the conversion, on a text that is already sanitized.
finish :
    (c : Char) (s : String)
    → every is_word (String.◌∷◌ c s) ≡ true
    → (t : String) × (guard_digit (String.◌∷◌ c s) ≡ ok t)
      × (to_upper t ≢ "")
      × (every is_env (to_upper t) ≡ true)
      × (first_is_digit (to_upper t) ≡ false)
unfolding guard_digit to_upper first_is_digit every is_word
finish c s h = elim (Bool-cases (is_digit (code c))) [
  | inl e ↦ (
    String.◌∷◌ "_" (String.◌∷◌ c s),
    rw e refl,
    nonempty-to_upper "_" (String.◌∷◌ c s),
    every-to_upper (String.◌∷◌ "_" (String.◌∷◌ c s)) h,
    refl,
  )
  | inr e ↦ (
    String.◌∷◌ c s,
    rw e refl,
    nonempty-to_upper c s,
    every-to_upper (String.◌∷◌ c s) h,
    not_digit-upper_char c e,
  )
]

-- A text that is not empty has a name, which is not empty either, consists of capital letters, digits and underscores, and
-- does not begin with a digit.
pub convert_to_env_name_lem :
    (input : String)
    → input ≢ ""
    → (name : String) × (convert_to_env_name input ≡ ok name)
      × (name ≢ "")
      × (every is_env name ≡ true)
      × (first_is_digit name ≡ false)
unfolding convert_to_env_name sanitize
convert_to_env_name_lem String.[] h = absurd (h refl)
convert_to_env_name_lem (String.◌∷◌ c s) h =
    let (t, guarded, named, all, first) =
      finish (if is_word (code c) then c else "_") (sanitize s) (every-sanitize (String.◌∷◌ c s)) in
    (to_upper t, ap (λ r. r >>= λ u. ok (to_upper u)) guarded, named, all, first)
