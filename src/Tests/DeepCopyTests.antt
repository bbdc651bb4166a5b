-- ===== src/Tests/DeepCopyTests.antt =====
-- A Keycloak in memory, with a database whose host is in a secret and with one extra option: its deep
-- copy, and the theorems at it.
use rhbk_operator.Prelude.{
  ℕ, arith, ◌≡◌, refl, String, Bool, true, false, Option, none, some, List, [], ◌∷◌, get_elem?,
}
use rhbk_operator.Kube.Meta.{Meta, named}
use rhbk_operator.Api.Types.{Condition}
use rhbk_operator.DeepCopy.Memory.{
  Memory, Pointer, Storage, Copying, write, new_copy, keep, write-Agrees_below, write-Agrees_above,
}
use rhbk_operator.DeepCopy.Shape.{Shape, plain, both, along, pointer}
use rhbk_operator.DeepCopy.Rules.{IsCopied}
use rhbk_operator.DeepCopy.Deep.{IsDeep, plain-IsDeep, both-IsDeep, along-IsDeep, new_copy-IsDeep}
use rhbk_operator.DeepCopy.Structs.{Foreign, KeycloakStruct, zero_keycloak, zero_postgres_database}
use rhbk_operator.DeepCopy.Cells.{
  Cell, selector_cell, database_cell, option_vars_cell, keycloak_cell, foreign_cell,
}
use rhbk_operator.DeepCopy.Into.{
  Copiers, keycloak_deep_copy_into, keycloak_spec_deep_copy_into, postgres_database_deep_copy_into,
  secret_option_deep_copy_into, secret_option_var_deep_copy_into, admin_user_deep_copy_into,
  provider_deep_copy_into, keycloak_status_deep_copy_into, conditions_deep_copy_into,
}
use rhbk_operator.DeepCopy.Methods.{
  keycloak_kind, keycloak_object, keycloak_deep_copy, deep_copy, deep_copy_object,
}
use rhbk_operator.DeepCopy.Shapes.{ForeignShapes, AreDeep, shape_of}
use rhbk_operator.DeepCopy.Laws.{deep_copy-IsCopied}
use rhbk_operator.DeepCopy.Independence.{
  view_object, view_result, IsHeld, deep_copy_object-IsIndependent,
}

-- corev1.SecretKeySelector with its `Optional *bool`
record StoredSelector : Type 0 where
  name : String
  key : String
  optional : Pointer

abbrev foreign : Foreign
foreign = record {
  ObjectMeta = Meta;
  ListMeta = String;
  Condition = Condition;
  SecretKeySelector = StoredSelector;
  Content = Bool;
  zero_object_meta = named "" "";
  zero_list_meta = "";
  zero_selector = record { name = ""; key = ""; optional = none };
  zero_content = false;
}

abbrev get_flag : Cell foreign → Bool
get_flag (foreign_cell b) = b
get_flag _ = false

abbrev flags : Storage (Cell foreign) Bool
flags = record { put = foreign_cell; get = get_flag; get-put = λ b. refl; zero_value = false }

abbrev selector_fields : StoredSelector → String × (String × Pointer)
selector_fields s = (s.name, (s.key, s.optional))

abbrev copy_selector : Copying (Cell foreign) StoredSelector
copy_selector s m =
    let (optional, end) = new_copy flags keep s.optional m in
    (record s { optional = optional }, end)

abbrev copiers : Copiers foreign
copiers = record {
  object_meta = keep;
  list_meta = keep;
  condition = keep;
  selector = copy_selector;
}

abbrev optional_shape : Shape (Cell foreign) (String × Pointer)
optional_shape = both (plain {A = String}) (pointer flags (plain {A = Bool}))

abbrev selector_shape : Shape (Cell foreign) StoredSelector
selector_shape = along selector_fields (both (plain {A = String}) optional_shape)

abbrev foreign_shapes : ForeignShapes foreign
foreign_shapes = record {
  object_meta = plain;
  list_meta = plain;
  condition = plain;
  selector = selector_shape;
}

optional-IsDeep : IsDeep (pointer flags (plain {A = Bool})) (new_copy flags keep)
optional-IsDeep = new_copy-IsDeep (plain-IsDeep {A = Bool}) flags

deep : AreDeep foreign_shapes copiers
deep = record {
  object_meta = plain-IsDeep {A = Meta};
  list_meta = plain-IsDeep {A = String};
  condition = plain-IsDeep {A = Condition};
  selector =
      along-IsDeep selector_fields copy_selector (λ s m. refl)
        (both-IsDeep (plain-IsDeep {A = String})
          (both-IsDeep (plain-IsDeep {A = String}) optional-IsDeep));
}

abbrev stored : KeycloakStruct foreign
stored =
    let zero_stored : KeycloakStruct foreign = zero_keycloak foreign in
    record zero_stored {
      object_meta = named "sso" "team-a";
      spec = record zero_stored.spec { database = some 1; additional_options = some 4 };
    }

abbrev content : List (Cell foreign)
content =
    keycloak_cell stored
    ∷ database_cell
        (record zero_postgres_database { host = record { value = ""; secret = some 2 } })
    ∷ selector_cell (record { name = "db"; key = "host"; optional = some 3 })
    ∷ foreign_cell true
    ∷ option_vars_cell (record { name = "KC_CACHE"; value = "local"; secret = none } ∷ [])
    ∷ []

abbrev or_zero : Option (Cell foreign) → Cell foreign
or_zero none = foreign_cell false
or_zero (some c) = c

abbrev memory : Memory (Cell foreign)
memory = record { next = 5; cells = λ (p : ℕ). or_zero (get_elem? content p) }

-- The five cells are copied, the struct first.
copied_cells : ((deep_copy copiers keycloak_kind (some 0) memory).1).next ≡ 10
unfolding keycloak_deep_copy keycloak_deep_copy_into keycloak_spec_deep_copy_into
    postgres_database_deep_copy_into secret_option_deep_copy_into secret_option_var_deep_copy_into
    admin_user_deep_copy_into provider_deep_copy_into keycloak_status_deep_copy_into
    conditions_deep_copy_into
copied_cells = refl

memory-IsHeld : IsHeld foreign_shapes memory (keycloak_object (some 0))
memory-IsHeld = omega arith

deep_copy-IsCopied_example :
    IsCopied
      (shape_of foreign_shapes keycloak_kind)
      memory
      (some 0)
      (deep_copy copiers keycloak_kind (some 0) memory)
deep_copy-IsCopied_example = deep_copy-IsCopied deep keycloak_kind (some 0) memory memory-IsHeld

abbrev theirs : Memory (Cell foreign)
theirs = write 7 (foreign_cell true) memory

abbrev mine : Memory (Cell foreign)
mine = write 4 (option_vars_cell []) (deep_copy_object copiers (keycloak_object (some 0)) memory).1

deep_copy_object-IsIndependent_example :
    (view_object foreign_shapes theirs (keycloak_object (some 0))
      ≡ view_object foreign_shapes memory (keycloak_object (some 0)))
    × (view_result foreign_shapes mine
          (deep_copy_object copiers (keycloak_object (some 0)) memory).0
        ≡ view_object foreign_shapes memory (keycloak_object (some 0)))
deep_copy_object-IsIndependent_example =
    deep_copy_object-IsIndependent deep (keycloak_object (some 0)) memory theirs mine memory-IsHeld
      (write-Agrees_below 7 (foreign_cell true) 0 5 memory (omega arith))
      (write-Agrees_above 4 (option_vars_cell []) 5
        ((deep_copy_object copiers (keycloak_object (some 0)) memory).1).next
        (deep_copy_object copiers (keycloak_object (some 0)) memory).1 (omega arith))
