-- ===== src/Kube/Libs.antt =====
-- What the operator calls of client libraries on values: owner references, finalizers and label
-- selectors (apimachinery, controller-runtime), and the template engine that fills a realm.
use rhbk_operator.Prelude.{String, ◌≡◌, Bool, true, false, Option, none, some, ◌↔◌, All}
use rhbk_operator.Prelude.Maps.{Map, lookup}
use rhbk_operator.Prelude.Outcome.{Outcome, ok}
use rhbk_operator.Kube.Meta.{Meta}

pub record Libs : Type 0 where
  -- controllerutil.SetControllerReference(owner, controlled, scheme): the metadata of `controlled`.
  pub set_controller_reference : (owner controlled : Meta) → Outcome Meta
  pub contains_finalizer : Meta → String → Bool
  pub add_finalizer : Meta → String → Meta
  pub remove_finalizer : Meta → String → Meta
  -- labels.SelectorFromSet(set).Matches(labels.Set(labels))
  pub selects : (set : Map String) → (labels : Option (Map String)) → Bool
  -- text/template: `New(…).Option(option).Delims(left, right).Parse(text)`, as the function that
  -- executes the template on a map.
  pub parse_template : (option left right text : String) → Outcome (Map String → Outcome String)

-- The value of a label, if there is one.
abbrev pub label : String → Option (Map String) → Option String
label k none = none
label k (some m) = lookup k m

abbrev pub HasLabels : Map String → Option (Map String) → Type 0
HasLabels set labels = All (λ (pair : String × String). label pair.0 labels ≡ some pair.1) set

-- A selector made from a set matches the labels that hold each pair of the set.
abbrev pub SelectsExactly : Libs → Type 0
SelectsExactly libs =
    (set : Map String) (labels : Option (Map String))
    → (libs.selects set labels ≡ true) ↔ HasLabels set labels

-- An owner reference changes neither the labels nor the annotations nor the name of an object.
pub record KeepsMeta (libs : Libs) : Type 0 where
  pub keeps :
      (owner controlled : Meta) {m : Meta}
      → libs.set_controller_reference owner controlled ≡ ok m
      → (m.name ≡ controlled.name)
        × (m.namespace ≡ controlled.namespace)
        × (m.labels ≡ controlled.labels)
        × (m.annotations ≡ controlled.annotations)

-- An object that has its owner already is left as it is.
pub record IsStable (libs : Libs) : Type 0 where
  pub again :
      (owner controlled : Meta) {m : Meta}
      → libs.set_controller_reference owner controlled ≡ ok m
      → libs.set_controller_reference owner m ≡ ok m

-- A finalizer that was added is there, one that was removed is not.
pub record TracksFinalizers (libs : Libs) : Type 0 where
  pub contains-add :
      (m : Meta) (f : String) → libs.contains_finalizer (libs.add_finalizer m f) f ≡ true
  pub contains-remove :
      (m : Meta) (f : String) → libs.contains_finalizer (libs.remove_finalizer m f) f ≡ false
