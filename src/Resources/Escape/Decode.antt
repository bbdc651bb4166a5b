-- ===== src/Resources/Escape/Decode.antt =====
-- The text between the quotes of a JSON string, read as the JSON grammar says (RFC 8259, section 7):
-- a description of what `EscapeString` is to produce that does not look at how it does it.
use Prim.Native.Char.{code}
use Prim.Native.String.{◌++◌}
use rhbk_operator.Prelude.{
  ℕ, zero, suc, ◌+◌, ◌-◌, ◌*◌, ◌<◌, String, ◌≡◌, refl, sym, ap, ◌∙◌, Bool, Bool-cases, inl, inr,
  true, false, ◌&&◌, ◌||◌, Option, none, some, List, [], ◌∷◌, ltb, leb, eqb, if◌then◌else◌, arith,
  all_below, below,
}
use mathlib.Core.List.{append_assoc}
use text.Mathlib.TextLemmas.{nil-append, cons-append}
use rhbk_operator.Prelude as Lists

-- Between two characters; behind a backslash; before a hexadecimal digit, with the number of digits
-- behind it and the value of those that were read.
pub data Reading : Type 0 where
  plain slash : Reading
  hex : (rest value : ℕ) → Reading

unfoldable pub hex_value : ℕ → Option ℕ
hex_value n =
    if leb b'0' n && leb n b'9'
    then some (n - b'0')
    else if leb b'a' n && leb n b'f'
    then some (n - 87)
    else if leb b'A' n && leb n b'F'
    then some (n - 55)
    else none

unfoldable pub add_digit : ℕ → ℕ → ℕ → Reading × List ℕ
add_digit zero value digit = (plain, (value * 16 + digit) ∷ [])
add_digit (suc rest) value digit = (hex rest (value * 16 + digit), [])

-- One character, by its code: what comes next, and the codes that are then known.
unfoldable pub read_code : Reading → ℕ → Option (Reading × List ℕ)
unfolding hex_value add_digit
read_code plain n =
    if ltb n 32 || eqb n b'"'
    then none
    else if eqb n b'\\'
    then some (slash, [])
    else some (plain, n ∷ [])
read_code slash n =
    if eqb n b'"' || (eqb n b'\\' || eqb n b'/')
    then some (plain, n ∷ [])
    else if eqb n b'b'
    then some (plain, 8 ∷ [])
    else if eqb n b'f'
    then some (plain, 12 ∷ [])
    else if eqb n b'n'
    then some (plain, 10 ∷ [])
    else if eqb n b'r'
    then some (plain, 13 ∷ [])
    else if eqb n b't'
    then some (plain, 9 ∷ [])
    else if eqb n b'u'
    then some (hex 3 0, [])
    else none
read_code (hex rest value) n = elim (hex_value n) [
  | none ↦ none
  | some digit ↦ some (add_digit rest value digit)
]

-- The codes that were known before the rest was read.
unfoldable pub prepend : List ℕ → Option (Reading × List ℕ) → Option (Reading × List ℕ)
prepend out none = none
prepend out (some (r, more)) = some (r, Lists.◌++◌ out more)

unfoldable pub read_text : Reading → String → Option (Reading × List ℕ)
unfolding read_code prepend
read_text r String.[] = some (r, [])
read_text r (String.◌∷◌ c s) = elim (read_code r (code c)) [
  | none ↦ none
  | some (next, out) ↦ prepend out (read_text next s)
]

unfoldable pub codes : String → List ℕ
codes String.[] = []
codes (String.◌∷◌ c s) = code c ∷ codes s

-- The text must not end within an escape.
unfoldable pub end_of_text : Option (Reading × List ℕ) → Option (List ℕ)
end_of_text none = none
end_of_text (some (plain, out)) = some out
end_of_text (some (slash, out)) = none
end_of_text (some (hex rest value, out)) = none

-- The characters that a JSON string stands for, by their codes.
unfoldable pub decode : String → Option (List ℕ)
unfolding read_text end_of_text
decode s = end_of_text (read_text plain s)

prepend-nil : (o : Option (Reading × List ℕ)) → prepend [] o ≡ o
unfolding prepend
prepend-nil none = refl
prepend-nil (some (r, out)) = refl

prepend-append :
    (a b : List ℕ) (o : Option (Reading × List ℕ))
    → prepend (Lists.◌++◌ a b) o ≡ prepend a (prepend b o)
unfolding prepend
prepend-append a b none = refl
prepend-append a b (some (r, out)) = ap (λ l. some (r, l)) (append_assoc a b out)

-- What was read of a first part, and then the rest.
abbrev pub resume : Option (Reading × List ℕ) → String → Option (Reading × List ℕ)
resume none t = none
resume (some (r, out)) t = prepend out (read_text r t)

resume-prepend :
    (out : List ℕ) (o : Option (Reading × List ℕ)) (t : String)
    → resume (prepend out o) t ≡ prepend out (resume o t)
unfolding prepend
resume-prepend out none t = refl
resume-prepend out (some (r, more)) t = prepend-append out more (read_text r t)

resume-step :
    (o : Option (Reading × List ℕ)) (s t : String)
    → ((next : Reading) → read_text next (s ++ t) ≡ resume (read_text next s) t)
    → (elim o [ none ↦ none | some (next, out) ↦ prepend out (read_text next (s ++ t)) ])
      ≡ resume (elim o [ none ↦ none | some (next, out) ↦ prepend out (read_text next s) ]) t
resume-step none s t rest = refl
resume-step (some (next, out)) s t rest =
    rw (rest next) (sym (resume-prepend out (read_text next s) t))

pub read_text-append :
    (r : Reading) (s t : String) → read_text r (s ++ t) ≡ resume (read_text r s) t
unfolding read_text
read_text-append r String.[] t = rw (nil-append t) (sym (prepend-nil (read_text r t)))
read_text-append r (String.◌∷◌ c s) t =
    rw (cons-append c s t)
      (resume-step (read_code r (code c)) s t (λ next. read_text-append next s t))
