-- ===== src/Realm/ImportSecret/Substitutions.antt =====
-- What the substitutions of an import stand for, where the secrets that they name can be read.
use rhbk_operator.Prelude.{
  String, ◌≡◌, refl, ◌∙◌, ap, Bool-cases, inl, inr, Option, none, some, List, [], ◌∷◌, All, ◌==◌,
  if◌then◌else◌,
}
use rhbk_operator.Prelude.Maps.{Map, lookup, insert, lookup-insert, get_string}
use rhbk_operator.Prelude.Outcome.{ok}
use rhbk_operator.Kube.Meta.{Key}
use rhbk_operator.Kube.Pod.{SecretKeySelector}
use rhbk_operator.Kube.Objects.{Secret}
use rhbk_operator.Kube.Client.{Client}
use rhbk_operator.Api.Types.{SecretOptionVar, KeycloakImport}
use rhbk_operator.Resources.Escape.{is_pem, marshal_string, escape_string}
use rhbk_operator.Realm.ImportSecret.{fetch_selected, fetch_substitution, fetch_substitutions}

-- A value as it is put into the realm.
abbrev pub escaped : String → String
escaped value = if is_pem value then value else marshal_string value

pub escape_string_lem : (value : String) → escape_string value ≡ ok (escaped value)
unfolding escape_string
escape_string_lem value = elim (Bool-cases (is_pem value)) [ inl e ↦ rw e refl | inr e ↦ rw e refl ]

module _ (reads : Key → Secret) (cr : KeycloakImport) where
  -- The value that a selector refers to: that of the key in the secret, which is "" if it is missing.
  abbrev pub referred : SecretKeySelector → String
  referred s =
      get_string s.key
        (some (reads (record { name = s.name; namespace = cr.meta.namespace })).contents)

  -- The last substitution of the name decides.
  abbrev pub substituted : String → List SecretOptionVar → Option String → Option String
  substituted name [] earlier = earlier
  substituted name (sub ∷ subs) earlier = substituted name subs (
      if sub.name == name
      then (elim sub.secret [ none ↦ none | some s ↦ some (escaped (referred s)) ])
      else earlier)

abbrev pub HasSecret : SecretOptionVar → Type 0
HasSecret sub = (s : SecretKeySelector) × (sub.secret ≡ some s)

module _ {W : Type 0} (client : Client W) (reads : Key → Secret) (cr : KeycloakImport)
    (readable : (key : Key) (w : W) → client.get_secret key w ≡ (ok (reads key), w)) where
  fetch_substitution_lem :
      (sub : SecretOptionVar) (s : SecretKeySelector) (w : W)
      → sub.secret ≡ some s
      → fetch_substitution client cr sub w ≡ (ok (escaped (referred reads cr s)), w)
  unfolding fetch_substitution fetch_selected
  fetch_substitution_lem sub s w e =
      rw
        (
          e,
          readable (record { name = s.name; namespace = cr.meta.namespace }) w,
          escape_string_lem (referred reads cr s),
        )
        refl

  -- Where every secret can be read, and every substitution names one, the substitutions are fetched,
  -- and the value for each name is that of the last substitution of this name: the value under the
  -- key of its secret in the namespace of the import, escaped; a name that no substitution has keeps
  -- what it had.
  pub fetch_substitutions_lem :
      (subs : List SecretOptionVar) (before : Map String) (w : W)
      → All HasSecret subs
      → (m : Map String) × (fetch_substitutions client cr subs before w ≡ (ok m, w))
        × ((name : String) → lookup name m ≡ substituted reads cr name subs (lookup name before))
  unfolding fetch_substitutions
  fetch_substitutions_lem [] before w all = (before, refl, λ name. refl)
  fetch_substitutions_lem (sub ∷ subs) before w ((s, e), all) =
      let value = escaped (referred reads cr s) in
      let (m, fetched, finds) = fetch_substitutions_lem subs (insert sub.name value before) w all in
      (
        m,
        rw (fetch_substitution_lem sub s w e) fetched,
        λ name.
            finds name
            ∙ rw (e)
                (ap (substituted reads cr name subs) (lookup-insert sub.name name value before)),
      )
