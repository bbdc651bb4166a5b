-- ===== src/Tests/World.antt =====
-- The client libraries for the tests, with the laws that the theorems ask of them.
use text.Mathlib.TextPositions.{eq_refl}
use rhbk_operator.Prelude.{
  String, ◌≡◌, refl, Bool, true, false, ◌&&◌, Option, none, some, List, [], ◌∷◌, arith, ◌==◌,
  eq_iff, if◌then◌else◌,
}
use rhbk_operator.Prelude.Maps.{Map}
use rhbk_operator.Prelude.Outcome.{ok}
use rhbk_operator.Kube.Libs.{Libs, label, HasLabels, SelectsExactly, TracksFinalizers}
use rhbk_operator.Api.Types.{Condition}
use rhbk_operator.Api.Conditions.{ConditionLib, IsConditionLib}

-- Conditions as a list with one entry of a type.
unfoldable pub put_condition : Condition → List Condition → List Condition
put_condition c [] = c ∷ []
put_condition c (d ∷ ds) = if d.kind == c.kind then c ∷ ds else d ∷ put_condition c ds

unfoldable pub find_condition : String → List Condition → Option Condition
find_condition kind [] = none
find_condition kind (d ∷ ds) = if d.kind == kind then some d else find_condition kind ds

find-put :
    (c : Condition) (cs : List Condition) (kind : String)
    → find_condition kind (put_condition c cs)
      ≡ (if c.kind == kind then some c else find_condition kind cs)
unfolding find_condition put_condition
find-put c [] kind = refl
find-put c (d ∷ ds) kind =
    ground (arith, eq_iff d.kind c.kind, eq_iff d.kind kind, eq_iff c.kind kind, find-put c ds kind)

abbrev pub conditions_lib : ConditionLib
conditions_lib = record {
  reconcile_success = "ReconcileSuccess";
  reconcile_success_reason = "LastReconcileCycleSucceded";
  add_or_replace = put_condition;
  get_condition = find_condition;
}

pub conditions_laws : IsConditionLib conditions_lib
conditions_laws = record {
  get-add_self = λ c cs. simp (find-put, eq_refl);
  get-add_ne = λ c cs kind h. ground (arith, find-put c cs kind, eq_iff c.kind kind);
}

unfoldable pub has_pair : String → Option String → Bool
has_pair v none = false
has_pair v (some w) = w == v

unfoldable pub has_pairs : Map String → Option (Map String) → Bool
unfolding has_pair
has_pairs [] labels = true
has_pairs ((k, v) ∷ set) labels = has_pair v (label k labels) && has_pairs set labels

unfoldable pub holds : List String → String → Bool
holds [] f = false
holds (g ∷ fs) f = if g == f then true else holds fs f

unfoldable pub without : List String → String → List String
without [] f = []
without (g ∷ fs) f = if g == f then without fs f else g ∷ without fs f

abbrev pub client_libs : Libs
client_libs = record {
  set_controller_reference = λ owner controlled. ok controlled;
  contains_finalizer = λ m f. holds m.finalizers f;
  add_finalizer = λ m f. record m { finalizers = f ∷ m.finalizers };
  remove_finalizer = λ m f. record m { finalizers = without m.finalizers f };
  selects = has_pairs;
  parse_template = λ option left right text. ok (λ substitutions. ok text);
}

has_pair-some : (v : String) (o : Option String) → has_pair v o ≡ true → o ≡ some v
unfolding has_pair
has_pair-some v none h = ground arith
has_pair-some v (some w) h = ground (arith, eq_iff w v)

both : (a b : Bool) → (a && b) ≡ true → (a ≡ true) × (b ≡ true)
both true b h = (refl, h)
both false b h = ground arith

has_pairs-HasLabels :
    (set : Map String) (labels : Option (Map String))
    → has_pairs set labels ≡ true
    → HasLabels set labels
unfolding has_pairs
has_pairs-HasLabels [] labels h = tt
has_pairs-HasLabels ((k, v) ∷ set) labels h =
    let (one, rest) = both (has_pair v (label k labels)) (has_pairs set labels) h in
    (has_pair-some v (label k labels) one, has_pairs-HasLabels set labels rest)

HasLabels-has_pairs :
    (set : Map String) (labels : Option (Map String))
    → HasLabels set labels
    → has_pairs set labels ≡ true
unfolding has_pairs has_pair
HasLabels-has_pairs [] labels h = refl
HasLabels-has_pairs ((k, v) ∷ set) labels (e, h) =
    rw (e, eq_refl v) (HasLabels-has_pairs set labels h)

pub selects_exactly : SelectsExactly client_libs
selects_exactly set labels = (has_pairs-HasLabels set labels, HasLabels-has_pairs set labels)

holds-without : (fs : List String) (f : String) → holds (without fs f) f ≡ false
unfolding holds without
holds-without [] f = refl
holds-without (g ∷ fs) f = ground (arith, holds-without fs f)

pub tracks_finalizers : TracksFinalizers client_libs
unfolding holds
tracks_finalizers = record {
  contains-add = λ m f. rw (eq_refl f);
  contains-remove = λ m f. holds-without m.finalizers f;
}
