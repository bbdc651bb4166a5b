-- ===== src/DeepCopy/Independence.antt =====
-- An object and its deep copy share nothing: what is later written to one of them leaves the other as
-- it was.
use rhbk_operator.Prelude.{◌≡◌, refl, ap, ◌∙◌, Option, none, some}
use rhbk_operator.DeepCopy.Memory.{Memory, Pointer, Agrees}
use rhbk_operator.DeepCopy.Structs.{Foreign}
use rhbk_operator.DeepCopy.Cells.{Cell}
use rhbk_operator.DeepCopy.Into.{Copiers}
use rhbk_operator.DeepCopy.Methods.{
  Kind, keycloak_kind, keycloak_list_kind, keycloak_import_kind, keycloak_import_list_kind, Object,
  keycloak_object, keycloak_list_object, import_object, import_list_object, as_object, deep_copy,
  deep_copy_object, keycloak_deep_copy_object, keycloak_list_deep_copy_object,
  keycloak_import_deep_copy_object, keycloak_import_list_deep_copy_object,
}
use rhbk_operator.DeepCopy.Shapes.{
  ForeignShapes, AreDeep, shape_of, keycloak_shape, keycloak_list_shape, keycloak_import_shape,
  keycloak_import_list_shape,
}
use rhbk_operator.DeepCopy.Laws.{deep_copy-IsDeep, deep_copy-IsCopied}

abbrev pub kind_of : Object → Kind
kind_of (keycloak_object p) = keycloak_kind
kind_of (keycloak_list_object p) = keycloak_list_kind
kind_of (import_object p) = keycloak_import_kind
kind_of (import_list_object p) = keycloak_import_list_kind

abbrev pub address : Object → Pointer
address (keycloak_object p) = p
address (keycloak_list_object p) = p
address (import_object p) = p
address (import_list_object p) = p

-- What an object stands for.
pub data ObjectView {F : Foreign} (shapes : ForeignShapes F) : Type 0 where
  keycloak_view : (keycloak_shape shapes).View → ObjectView shapes
  keycloak_list_view : (keycloak_list_shape shapes).View → ObjectView shapes
  import_view : (keycloak_import_shape shapes).View → ObjectView shapes
  import_list_view : (keycloak_import_list_shape shapes).View → ObjectView shapes

abbrev pub seen_as : {V W : Type 0} → (V → W) → Option V → Option W
seen_as view none = none
seen_as view (some v) = some (view v)

module _ {F : Foreign} (shapes : ForeignShapes F) where
  abbrev pub view_object : Memory (Cell F) → Object → Option (ObjectView shapes)
  view_object m (keycloak_object p) =
      seen_as keycloak_view ((shape_of shapes keycloak_kind).view m p)
  view_object m (keycloak_list_object p) =
      seen_as keycloak_list_view ((shape_of shapes keycloak_list_kind).view m p)
  view_object m (import_object p) =
      seen_as import_view ((shape_of shapes keycloak_import_kind).view m p)
  view_object m (import_list_object p) =
      seen_as import_list_view ((shape_of shapes keycloak_import_list_kind).view m p)

  abbrev pub view_result : Memory (Cell F) → Option Object → Option (ObjectView shapes)
  view_result m none = none
  view_result m (some o) = view_object m o

  -- All that an object reaches is in memory that was given out.
  abbrev pub IsHeld : Memory (Cell F) → Object → Type 0
  IsHeld m o = (shape_of shapes (kind_of o)).IsIn 0 m.next m (address o)

module _ {F : Foreign} {shapes : ForeignShapes F} {libs : Copiers F}
    (laws : AreDeep shapes libs) where
  module _ (k : Kind) (p : Pointer) (m theirs mine : Memory (Cell F))
      (inside : (shape_of shapes k).IsIn 0 m.next m p) where
    abbrev the_copy : Pointer
    the_copy = (deep_copy libs k p m).0

    abbrev end : Memory (Cell F)
    end = (deep_copy libs k p m).1

    -- Either of the two, in a memory that has kept the cells of the one.
    independent :
        Agrees 0 m.next m theirs
        → Agrees m.next end.next end mine
        → ((shape_of shapes k).view theirs p ≡ (shape_of shapes k).view m p)
          × ((shape_of shapes k).view mine the_copy ≡ (shape_of shapes k).view m p)
    independent old new =
        let (grown, kept, fresh, reads) = deep_copy-IsCopied laws k p m inside in
        let fixed = (deep_copy-IsDeep laws k).fixed in
        (
          fixed.same 0 m.next m theirs p inside old,
          fixed.same m.next end.next end mine the_copy fresh new ∙ reads,
        )

  -- Where the values of the other packages are deeply copied, and all that an object reaches is in
  -- memory that was given out: the object stands for what it stood for after any change to cells that
  -- its `DeepCopyObject` allocated, or that were allocated later; and the copy stands for the same after
  -- any change to all the cells that it did not allocate. A nil pointer gives a nil object.
  pub deep_copy_object-IsIndependent :
      (o : Object) (m theirs mine : Memory (Cell F))
      → IsHeld shapes m o
      → Agrees 0 m.next m theirs
      → let (copy, left) = deep_copy_object libs o m in
        Agrees m.next left.next left mine
        → (view_object shapes theirs o ≡ view_object shapes m o)
          × (view_result shapes mine copy ≡ view_object shapes m o)
  unfolding keycloak_deep_copy_object keycloak_list_deep_copy_object
      keycloak_import_deep_copy_object keycloak_import_list_deep_copy_object
  deep_copy_object-IsIndependent (keycloak_object p) m theirs mine inside old new =
      let (here, there) = independent keycloak_kind p m theirs mine inside old new in
      (
        ap (seen_as keycloak_view) here,
        same_view (the_copy keycloak_kind p m theirs mine inside)
            ∙ ap (seen_as keycloak_view) there,
      )
    where
      same_view :
          (q : Pointer)
          → view_result shapes mine (as_object keycloak_object q)
            ≡ seen_as keycloak_view ((shape_of shapes keycloak_kind).view mine q)
      same_view none = refl
      same_view (some q) = refl
  deep_copy_object-IsIndependent (keycloak_list_object p) m theirs mine inside old new =
      let (here, there) = independent keycloak_list_kind p m theirs mine inside old new in
      (
        ap (seen_as keycloak_list_view) here,
        same_view (the_copy keycloak_list_kind p m theirs mine inside)
            ∙ ap (seen_as keycloak_list_view) there,
      )
    where
      same_view :
          (q : Pointer)
          → view_result shapes mine (as_object keycloak_list_object q)
            ≡ seen_as keycloak_list_view ((shape_of shapes keycloak_list_kind).view mine q)
      same_view none = refl
      same_view (some q) = refl
  deep_copy_object-IsIndependent (import_object p) m theirs mine inside old new =
      let (here, there) = independent keycloak_import_kind p m theirs mine inside old new in
      (
        ap (seen_as import_view) here,
        same_view (the_copy keycloak_import_kind p m theirs mine inside)
            ∙ ap (seen_as import_view) there,
      )
    where
      same_view :
          (q : Pointer)
          → view_result shapes mine (as_object import_object q)
            ≡ seen_as import_view ((shape_of shapes keycloak_import_kind).view mine q)
      same_view none = refl
      same_view (some q) = refl
  deep_copy_object-IsIndependent (import_list_object p) m theirs mine inside old new =
      let (here, there) = independent keycloak_import_list_kind p m theirs mine inside old new in
      (
        ap (seen_as import_list_view) here,
        same_view (the_copy keycloak_import_list_kind p m theirs mine inside)
            ∙ ap (seen_as import_list_view) there,
      )
    where
      same_view :
          (q : Pointer)
          → view_result shapes mine (as_object import_list_object q)
            ≡ seen_as import_list_view ((shape_of shapes keycloak_import_list_kind).view mine q)
      same_view none = refl
      same_view (some q) = refl
