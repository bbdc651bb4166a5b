-- ===== src/DeepCopy/Deep.antt =====
-- A type whose values are deeply copied, and how structs, slices and pointers keep this.
use rhbk_operator.Prelude.{◌≡◌}
use rhbk_operator.DeepCopy.Memory.{Memory, Storage, Copying, keep, new_copy, each}
use rhbk_operator.DeepCopy.Shape.{
  Shape, IsShape, plain, both, along, pointer, elements, plain-IsShape, both-IsShape, along-IsShape,
  pointer-IsShape, elements-IsShape,
}
use rhbk_operator.DeepCopy.Rules.{
  Copies, plain-Copies, along-Copies, both-Copies, each-Copies, new_copy-Copies,
}

pub record IsDeep {C A : Type 0} (S : Shape C A) (copy : Copying C A) : Type 0 where
  pub fixed : IsShape S
  pub copies : Copies S copy

module _ {C : Type 0} where
  pub plain-IsDeep : {A : Type 0} → IsDeep (plain {C = C} {A = A}) keep
  plain-IsDeep = record { fixed = plain-IsShape; copies = plain-Copies }

  pub along-IsDeep :
      {A B : Type 0} (f : A → B) {S : Shape C B} {copy : Copying C B} (whole : Copying C A)
      → ((a : A) (m : Memory C) → (f (whole a m).0, (whole a m).1) ≡ copy (f a) m)
      → IsDeep S copy
      → IsDeep (along f S) whole
  along-IsDeep f whole e d = record {
    fixed = along-IsShape f d.fixed;
    copies = along-Copies f whole e d.copies;
  }

  pub both-IsDeep :
      {A B : Type 0} {S : Shape C A} {T : Shape C B} {f : Copying C A} {g : Copying C B}
      → IsDeep S f
      → IsDeep T g
      → IsDeep (both S T) (λ (a, b) m. let (x, n) = f a m in let (y, o) = g b n in ((x, y), o))
  both-IsDeep d e = record {
    fixed = both-IsShape d.fixed e.fixed;
    copies = both-Copies d.fixed e.fixed d.copies e.copies;
  }

  module _ {A : Type 0} {S : Shape C A} {f : Copying C A} (d : IsDeep S f) where
    pub each-IsDeep : IsDeep (elements S) (each f)
    each-IsDeep = record { fixed = elements-IsShape d.fixed; copies = each-Copies d.fixed d.copies }

    pub new_copy-IsDeep : (storage : Storage C A) → IsDeep (pointer storage S) (new_copy storage f)
    new_copy-IsDeep storage = record {
      fixed = pointer-IsShape d.fixed storage;
      copies = new_copy-Copies d.fixed d.copies storage;
    }
