-- ===== src/Controller/Watch/Choices.antt =====
-- The loop of the handlers picks the keys of the imports that are wanted.
use mathlib.Core.List.{Memᴰ}
use mathlib.Core.List.Memᴰ.{head, tail}
use rhbk_operator.Prelude.{
  ◌≡◌, ◌↔◌, refl, subst, ap, Bool, Bool-cases, inl, inr, true, false, List, [], ◌∷◌, All, arith,
}
use rhbk_operator.Prelude.Outcome.{Outcome, ok}
use rhbk_operator.Kube.Meta.{Key, key_of}
use rhbk_operator.Api.Types.{KeycloakImport}
use rhbk_operator.Controller.Watch.{requests}

-- A test that says whether something holds.
abbrev pub Decides : Outcome Bool → Type 0 → Type 0
Decides r P = (b : Bool) × (r ≡ ok b) × ((b ≡ true) ↔ P)

-- The keys of the wanted imports, and no others.
abbrev pub AreKeysOf : (KeycloakImport → Type 0) → List KeycloakImport → List Key → Type 0
AreKeysOf Wanted imports keys =
    ((cr : KeycloakImport) → Memᴰ cr imports → Wanted cr → Memᴰ (key_of cr.meta) keys)
    × ((k : Key)
        → Memᴰ k keys
        → (cr : KeycloakImport) × Memᴰ cr imports × Wanted cr × (k ≡ key_of cr.meta))

pub not_both : (b : Bool) → b ≡ true → b ≡ false → ⊥
not_both b h g = ground arith

module _ (Wanted : KeycloakImport → Type 0) where
  AreKeysOf-taken :
      (cr : KeycloakImport) (imports : List KeycloakImport) (keys : List Key)
      → Wanted cr
      → AreKeysOf Wanted imports keys
      → AreKeysOf Wanted (cr ∷ imports) (key_of cr.meta ∷ keys)
  AreKeysOf-taken cr imports keys wanted (complete, sound) = (found, comes)
    where
      found :
          (other : KeycloakImport)
          → Memᴰ other (cr ∷ imports)
          → Wanted other
          → Memᴰ (key_of other.meta) (key_of cr.meta ∷ keys)
      found other (head e) h = head (ap (λ (c : KeycloakImport). key_of c.meta) e)
      found other (tail m) h = tail (complete other m h)

      comes :
          (k : Key)
          → Memᴰ k (key_of cr.meta ∷ keys)
          → (other : KeycloakImport) × Memᴰ other (cr ∷ imports)
            × Wanted other
            × (k ≡ key_of other.meta)
      comes k (head e) = (cr, head refl, wanted, e)
      comes k (tail m) = let (other, m', h, e) = sound k m in (other, tail m', h, e)

  AreKeysOf-left :
      (cr : KeycloakImport) (imports : List KeycloakImport) (keys : List Key)
      → (Wanted cr → ⊥)
      → AreKeysOf Wanted imports keys
      → AreKeysOf Wanted (cr ∷ imports) keys
  AreKeysOf-left cr imports keys unwanted (complete, sound) =
      (found, λ k m. let (other, m', h, e) = sound k m in (other, tail m', h, e))
    where
      found :
          (other : KeycloakImport)
          → Memᴰ other (cr ∷ imports)
          → Wanted other
          → Memᴰ (key_of other.meta) keys
      found other (head e) h = absurd (unwanted (subst Wanted e h))
      found other (tail m) h = complete other m h

  pub requests-AreKeysOf :
      (concerns : KeycloakImport → Outcome Bool) (imports : List KeycloakImport)
      → All (λ cr. Decides (concerns cr) (Wanted cr)) imports
      → (keys : List Key) × (requests concerns imports ≡ ok keys) × AreKeysOf Wanted imports keys
  unfolding requests
  requests-AreKeysOf concerns [] tested = ([], refl, ((λ cr m h. elim m [ ]), λ k m. elim m [ ]))
  requests-AreKeysOf concerns (cr ∷ imports) ((b, e, says), tested) =
      let (keys, e', chosen) = requests-AreKeysOf concerns imports tested in
      elim (Bool-cases b) [
        | inl h ↦ (
          key_of cr.meta ∷ keys,
          rw (e, h, e') refl,
          AreKeysOf-taken cr imports keys (says.0 h) chosen,
        )
        | inr h ↦ (
          keys,
          rw (e, h, e') refl,
          AreKeysOf-left cr imports keys (λ wanted. not_both b (says.1 wanted) h) chosen,
        )
      ]
