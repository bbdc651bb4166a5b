-- ===== src/Kube/Recording/Removals.antt =====
-- Records of code that lists objects and then deletes them, one after the other.
use mathlib.Core.List.{Memᴰ}
use mathlib.Core.List.Memᴰ.{head, tail}
use rhbk_operator.Prelude.{refl, ap, ◌⊎◌, inl, inr, List, [], ◌∷◌}
use rhbk_operator.Prelude.Outcome.{Outcome, ok}
use rhbk_operator.Kube.Recording.{Event}

module _ {A : Type 0} (listed : Outcome (List A) → Event)
    (deleted : A → Outcome (Unit {0}) → Event) where
  -- Of the objects that were listed, these are left, and the others were deleted.
  abbrev pub Left : List A → List Event → Type 0
  Left objects log =
      (all : List A) × Memᴰ (listed (ok all)) log
      × ((x : A) → Memᴰ x objects → Memᴰ x all)
      × ((x : A) → Memᴰ x all → Memᴰ x objects ⊎ Memᴰ (deleted x (ok tt)) log)

  abbrev pub WasListed : A → List Event → Type 0
  WasListed x log = (all : List A) × Memᴰ (listed (ok all)) log × Memᴰ x all

  -- All that were listed were deleted.
  abbrev pub AreGone : List Event → Type 0
  AreGone log =
      (all : List A) × Memᴰ (listed (ok all)) log
      × ((x : A) → Memᴰ x all → Memᴰ (deleted x (ok tt)) log)

  pub Left-listed : (all : List A) (log : List Event) → Left all (listed (ok all) ∷ log)
  Left-listed all log = (all, head refl, (λ x m. m), λ x m. inl m)

  pub Left-deleted :
      (x : A) (objects : List A) (log : List Event)
      → Left (x ∷ objects) log
      → Left objects (deleted x (ok tt) ∷ log)
  Left-deleted x objects log (all, known, sub, rest) =
      (all, tail known, (λ y m. sub y (tail m)), λ y m. sort y (rest y m))
    where
      sort :
          (y : A)
          → Memᴰ y (x ∷ objects) ⊎ Memᴰ (deleted y (ok tt)) log
          → Memᴰ y objects ⊎ Memᴰ (deleted y (ok tt)) (deleted x (ok tt) ∷ log)
      sort y (inl (head e)) = inr (head (ap (λ z. deleted z (ok tt)) e))
      sort y (inl (tail m)) = inl m
      sort y (inr m) = inr (tail m)

  pub Left-WasListed :
      (x : A) (objects : List A) (log : List Event) → Left (x ∷ objects) log → WasListed x log
  Left-WasListed x objects log (all, known, sub, rest) = (all, known, sub x (head refl))

  pub Left-AreGone : (log : List Event) → Left [] log → AreGone log
  Left-AreGone log (all, known, sub, rest) = (all, known, λ x m. gone x (rest x m))
    where
      gone : (x : A) → Memᴰ x [] ⊎ Memᴰ (deleted x (ok tt)) log → Memᴰ (deleted x (ok tt)) log
      gone x (inl m) = elim m [ ]
      gone x (inr m) = m

  pub AreGone-later : (e : Event) (log : List Event) → AreGone log → AreGone (e ∷ log)
  AreGone-later e log (all, known, gone) = (all, tail known, λ x m. tail (gone x m))
