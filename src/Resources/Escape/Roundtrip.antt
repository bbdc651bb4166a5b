-- ===== src/Resources/Escape/Roundtrip.antt =====
-- What the reader of JSON texts makes of the texts that `EscapeString` returns.
use Prim.Native.Char.{Char, code}
use rhbk_operator.Prelude.{
  ℕ, ◌<◌, String, ◌≡◌, refl, sym, ap, ◌∙◌, Bool, true, false, ◌||◌, Option, none, some, List, [],
  ◌∷◌, ltb, eqb, if◌then◌else◌, arith, all_below, below,
}
use rhbk_operator.Prelude.Outcome.{ok}
use rhbk_operator.Resources.Escape.{
  unicode_escape, escape_char, one_char, marshal_string, is_pem, escape_string,
}
use rhbk_operator.Resources.Escape.Decode.{
  Reading, plain, slash, hex, prepend, read_code, read_text, end_of_text, codes, decode,
  read_text-append,
}

-- These characters stand for one, and the next one stands for itself again.
abbrev Reads : String → ℕ → Type 0
Reads s n = read_text plain s ≡ some (plain, n ∷ [])

unfoldable reads_as : ℕ → Option (Reading × List ℕ) → Bool
reads_as n none = false
reads_as n (some (slash, out)) = false
reads_as n (some (hex rest value, out)) = false
reads_as n (some (plain, [])) = false
reads_as n (some (plain, m ∷ [])) = eqb m n
reads_as n (some (plain, m ∷ k ∷ out)) = false

reads_as-some :
    (n : ℕ) (o : Option (Reading × List ℕ)) → reads_as n o ≡ true → o ≡ some (plain, n ∷ [])
unfolding reads_as
reads_as-some n none h = ground arith
reads_as-some n (some (slash, out)) h = ground arith
reads_as-some n (some (hex rest value, out)) h = ground arith
reads_as-some n (some (plain, [])) h = ground arith
reads_as-some n (some (plain, m ∷ [])) h = ap (λ m. some (plain, m ∷ [])) (ground arith)
reads_as-some n (some (plain, m ∷ k ∷ out)) h = ground arith

Reads-unicode_escape : (n : ℕ) → n < 64 → Reads (unicode_escape n) n
unfolding all_below reads_as read_text unicode_escape
Reads-unicode_escape n h =
    reads_as-some n (read_text plain (unicode_escape n))
      (below (λ n. reads_as n (read_text plain (unicode_escape n))) 64 n refl h)

Reads-text : (s : String) (k n : ℕ) → n ≡ k → Reads s k → Reads s n
Reads-text s k n e h = h ∙ ap (λ k. some (plain, k ∷ [])) (sym e)

-- The control characters and those of HTML.
abbrev is_unsafe : ℕ → Bool
is_unsafe n = ltb n 32 || (eqb n b'<' || (eqb n b'>' || eqb n b'&'))

Reads-if :
    (b : Bool) (n : ℕ) (s t : String)
    → (b ≡ true → Reads s n)
    → (b ≡ false → Reads t n)
    → Reads (if b then s else t) n
Reads-if true n s t one other = one refl
Reads-if false n s t one other = other refl

read_code-plain :
    (n : ℕ)
    → eqb n b'\\' ≡ false
    → eqb n b'"' ≡ false
    → ltb n 32 ≡ false
    → read_code plain n ≡ some (plain, n ∷ [])
unfolding read_code
read_code-plain n h g k = ground arith

Reads-one_char :
    (c : Char)
    → eqb (code c) b'\\' ≡ false
    → eqb (code c) b'"' ≡ false
    → ltb (code c) 32 ≡ false
    → Reads (one_char c) (code c)
unfolding read_text prepend
Reads-one_char c h g k =
    ap (λ o. elim o [ none ↦ none | some (next, out) ↦ prepend out (some (next, [])) ])
      (read_code-plain (code c) h g k)

Reads-escape_char : (c : Char) → Reads (escape_char c) (code c)
unfolding escape_char read_text
Reads-escape_char c =
    let n = code c in
    (Reads-if (eqb n 92) n _ _ (λ h. Reads-text "\\\\" 92 n (ground arith) refl)
      λ h0.
        (Reads-if (eqb n 34) n _ _ (λ h. Reads-text "\\\"" 34 n (ground arith) refl)
          λ h1.
            (Reads-if (eqb n 8) n _ _ (λ h. Reads-text "\\b" 8 n (ground arith) refl)
              λ h2.
                (Reads-if (eqb n 12) n _ _ (λ h. Reads-text "\\f" 12 n (ground arith) refl)
                  λ h3.
                    (Reads-if (eqb n 10) n _ _ (λ h. Reads-text "\\n" 10 n (ground arith) refl)
                      λ h4.
                        (Reads-if (eqb n 13) n _ _ (λ h. Reads-text "\\r" 13 n (ground arith) refl)
                          λ h5.
                            (Reads-if (eqb n 9) n _ _
                              (λ h. Reads-text "\\t" 9 n (ground arith) refl)
                              λ h6.
                                (Reads-if (is_unsafe n) n _ _
                                  (λ h. Reads-unicode_escape n (ground arith))
                                  λ h7.
                                    (Reads-if (eqb n 0x2028) n _ _
                                      (λ h. Reads-text "\\u2028" 0x2028 n (ground arith) refl)
                                      λ h8.
                                        (Reads-if (eqb n 0x2029) n _ _
                                          (λ h. Reads-text "\\u2029" 0x2029 n (ground arith) refl)
                                          λ h9. Reads-one_char c h0 h1 (ground arith)))))))))))

read_text-marshal_string : (s : String) → read_text plain (marshal_string s) ≡ some (plain, codes s)
unfolding marshal_string codes read_text prepend
read_text-marshal_string String.[] = refl
read_text-marshal_string (String.◌∷◌ c s) =
    read_text-append plain (escape_char c) (marshal_string s)
    ∙ rw (Reads-escape_char c, read_text-marshal_string s) refl

-- Whatever the value, unless it holds a PEM marker, the text that `EscapeString` makes of it, put
-- between the quotes of a JSON string, is read back as the characters of the value: no quote, no
-- control character and no backslash of the value ends the string or changes what follows.
pub decode-escape_string :
    (value : String)
    → is_pem value ≡ false
    → (text : String) × (escape_string value ≡ ok text) × (decode text ≡ some (codes value))
unfolding escape_string decode end_of_text
decode-escape_string value h =
    (marshal_string value, rw h refl, ap end_of_text (read_text-marshal_string value))
