-- ===== src/DeepCopy/Shape.antt =====
-- What a value in memory stands for: the value that is read through its pointers, and the cells that
-- it reaches.
use rhbk_operator.Prelude.{
  ℕ, ◌≤◌, ◌<◌, arith, ◌≡◌, refl, sym, ap, subst, ◌∙◌, Option, none, some, List, [], ◌∷◌,
}
use rhbk_operator.DeepCopy.Memory.{Memory, Storage, Agrees, Pointer, load}

-- `IsIn low high m a`: what `a` reaches in `m` has its address in `low .. high - 1`.
pub record Shape (C A : Type 0) : Type 1 where
  pub View : Type 0
  pub view : Memory C → A → View
  pub IsIn : ℕ → ℕ → Memory C → A → Type 0

module _ {C : Type 0} where
  -- A value without pointers.
  abbrev pub plain : {A : Type 0} → Shape C A
  plain {A} = record { View = A; view = λ m a. a; IsIn = λ low high m a. Unit }

  abbrev pub both : {A B : Type 0} → Shape C A → Shape C B → Shape C (A × B)
  both S T = record {
    View = S.View × T.View;
    view = λ m (a, b). (S.view m a, T.view m b);
    IsIn = λ low high m (a, b). S.IsIn low high m a × T.IsIn low high m b;
  }

  -- A struct by its fields.
  abbrev pub along : {A B : Type 0} → (A → B) → Shape C B → Shape C A
  along f S = record {
    View = S.View;
    view = λ m a. S.view m (f a);
    IsIn = λ low high m a. S.IsIn low high m (f a);
  }

  module _ {A : Type 0} (S : Shape C A) where
    abbrev pub view_pointer : Storage C A → Memory C → Pointer → Option S.View
    view_pointer storage m none = none
    view_pointer storage m (some p) = some (S.view m (load storage p m))

    abbrev pub IsPointerIn : Storage C A → ℕ → ℕ → Memory C → Pointer → Type 0
    IsPointerIn storage low high m none = Unit
    IsPointerIn storage low high m (some p) =
        (low ≤ p) × (p < high) × S.IsIn low high m (load storage p m)

    abbrev pub view_all : Memory C → List A → List S.View
    view_all m [] = []
    view_all m (a ∷ rest) = S.view m a ∷ view_all m rest

    abbrev pub AreIn : ℕ → ℕ → Memory C → List A → Type 0
    AreIn low high m [] = Unit
    AreIn low high m (a ∷ rest) = S.IsIn low high m a × AreIn low high m rest

  abbrev pub pointer : {A : Type 0} → Storage C A → Shape C A → Shape C Pointer
  pointer storage S = record {
    View = Option S.View;
    view = view_pointer S storage;
    IsIn = IsPointerIn S storage;
  }

  abbrev pub elements : {A : Type 0} → Shape C A → Shape C (List A)
  elements S = record { View = List S.View; view = view_all S; IsIn = AreIn S }

-- What a value stands for is fixed by the cells that it reaches.
pub record IsShape {C A : Type 0} (S : Shape C A) : Type 0 where
  pub wider :
      (low high below above : ℕ) (m : Memory C) (a : A)
      → S.IsIn low high m a
      → below ≤ low
      → high ≤ above
      → S.IsIn below above m a
  pub stays :
      (low high : ℕ) (m later : Memory C) (a : A)
      → S.IsIn low high m a
      → Agrees low high m later
      → S.IsIn low high later a
  pub same :
      (low high : ℕ) (m later : Memory C) (a : A)
      → S.IsIn low high m a
      → Agrees low high m later
      → S.view later a ≡ S.view m a

module _ {C : Type 0} where
  pub plain-IsShape : {A : Type 0} → IsShape (plain {C = C} {A = A})
  plain-IsShape = record {
    wider = λ low high below above m a inside lower upper. tt;
    stays = λ low high m later a inside agree. tt;
    same = λ low high m later a inside agree. refl;
  }

  pub along-IsShape : {A B : Type 0} (f : A → B) {S : Shape C B} → IsShape S → IsShape (along f S)
  along-IsShape f h = record {
    wider = λ low high below above m a. h.wider low high below above m (f a);
    stays = λ low high m later a. h.stays low high m later (f a);
    same = λ low high m later a. h.same low high m later (f a);
  }

  pub both-IsShape :
      {A B : Type 0} {S : Shape C A} {T : Shape C B} → IsShape S → IsShape T → IsShape (both S T)
  both-IsShape h k = record {
    wider = λ low high below above m (a, b) (first, second) lower upper. (
      h.wider low high below above m a first lower upper,
      k.wider low high below above m b second lower upper,
    );
    stays = λ low high m later (a, b) (first, second) agree.
        (h.stays low high m later a first agree, k.stays low high m later b second agree);
    same = λ low high m later (a, b) (first, second) agree.
        λ i. (h.same low high m later a first agree i, k.same low high m later b second agree i);
  }

  module _ {A : Type 0} {S : Shape C A} (h : IsShape S) where
    pub elements-IsShape : IsShape (elements S)
    elements-IsShape = record { wider = widen; stays = stay; same = agrees }
      where
        widen :
            (low high below above : ℕ) (m : Memory C) (xs : List A)
            → AreIn S low high m xs
            → below ≤ low
            → high ≤ above
            → AreIn S below above m xs
        widen low high below above m [] inside lower upper = tt
        widen low high below above m (a ∷ rest) (first, others) lower upper = (
          h.wider low high below above m a first lower upper,
          widen low high below above m rest others lower upper,
        )

        stay :
            (low high : ℕ) (m later : Memory C) (xs : List A)
            → AreIn S low high m xs
            → Agrees low high m later
            → AreIn S low high later xs
        stay low high m later [] inside agree = tt
        stay low high m later (a ∷ rest) (first, others) agree =
            (h.stays low high m later a first agree, stay low high m later rest others agree)

        agrees :
            (low high : ℕ) (m later : Memory C) (xs : List A)
            → AreIn S low high m xs
            → Agrees low high m later
            → view_all S later xs ≡ view_all S m xs
        agrees low high m later [] inside agree = refl
        agrees low high m later (a ∷ rest) (first, others) agree = λ i.
            h.same low high m later a first agree i ∷ agrees low high m later rest others agree i

    pub pointer-IsShape : (storage : Storage C A) → IsShape (pointer storage S)
    pointer-IsShape storage = record { wider = widen; stays = stay; same = agrees }
      where
        widen :
            (low high below above : ℕ) (m : Memory C) (p : Pointer)
            → IsPointerIn S storage low high m p
            → below ≤ low
            → high ≤ above
            → IsPointerIn S storage below above m p
        widen low high below above m none inside lower upper = tt
        widen low high below above m (some p) (from, to, inside) lower upper = (
          omega arith,
          omega arith,
          h.wider low high below above m (load storage p m) inside lower upper,
        )

        stay :
            (low high : ℕ) (m later : Memory C) (p : Pointer)
            → IsPointerIn S storage low high m p
            → Agrees low high m later
            → IsPointerIn S storage low high later p
        stay low high m later none inside agree = tt
        stay low high m later (some p) (from, to, inside) agree = (
          from,
          to,
          subst (λ a. S.IsIn low high later a) (sym (ap storage.get (agree p from to)))
              (h.stays low high m later (load storage p m) inside agree),
        )

        agrees :
            (low high : ℕ) (m later : Memory C) (p : Pointer)
            → IsPointerIn S storage low high m p
            → Agrees low high m later
            → view_pointer S storage later p ≡ view_pointer S storage m p
        agrees low high m later none inside agree = refl
        agrees low high m later (some p) (from, to, inside) agree = ap some (
            ap (λ c. S.view later (storage.get c)) (agree p from to)
            ∙ h.same low high m later (load storage p m) inside agree)
