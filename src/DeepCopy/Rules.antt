-- ===== src/DeepCopy/Rules.antt =====
-- What a deep copy is, and why the copy of a struct, a slice or a pointer is deep where those of its
-- parts are.
use rhbk_operator.Prelude.{
  ℕ, suc, ◌≤◌, arith, ◌≡◌, refl, sym, ap, subst, ◌∙◌, none, some, List, [], ◌∷◌,
}
use rhbk_operator.DeepCopy.Memory.{
  Memory, Storage, Pointer, Copying, Agrees, Agrees-trans, Agrees-narrow, write-Agrees_below,
  write-Agrees_above, load-store, load, store, allocate, keep, new_copy, each,
}
use rhbk_operator.DeepCopy.Shape.{
  Shape, IsShape, elements-IsShape, pointer-IsShape, plain, both, along, elements, AreIn, pointer,
  IsPointerIn, view_pointer,
}

module _ {C A : Type 0} (S : Shape C A) where
  -- The copy `b` of `a`, in the memory that the copying left: no cell that was in use has changed, all
  -- that the copy reaches was allocated by the copying, and the copy stands for what `a` stood for.
  abbrev pub IsCopied : Memory C → A → A × Memory C → Type 0
  IsCopied m a (b, end) =
      (m.next ≤ end.next)
      × Agrees 0 m.next m end
      × S.IsIn m.next end.next end b
      × (S.view end b ≡ S.view m a)

  pub record Copies (copy : Copying C A) : Type 0 where
    pub copied : (a : A) (m : Memory C) → S.IsIn 0 m.next m a → IsCopied m a (copy a m)

module _ {C : Type 0} where
  pub plain-Copies : {A : Type 0} → Copies (plain {C = C} {A = A}) keep
  plain-Copies = record { copied = λ a m inside. (omega arith, λ p from to. refl, tt, refl) }

  -- A copy of a struct by its fields.
  pub along-Copies :
      {A B : Type 0} (f : A → B) {S : Shape C B} {copy : Copying C B} (whole : Copying C A)
      → ((a : A) (m : Memory C) → (f (whole a m).0, (whole a m).1) ≡ copy (f a) m)
      → Copies S copy
      → Copies (along f S) whole
  along-Copies f {S} whole e h = record {
    copied = λ a m inside. subst (IsCopied S m (f a)) (sym (e a m)) (h.copied (f a) m inside);
  }

  -- Of two copies one after the other, the second leaves the first alone, and does not see it.
  join :
      {A B : Type 0} {S : Shape C A} {T : Shape C B} (h : IsShape S) (k : IsShape T)
      (m n o : Memory C) (a x : A) (b y : B)
      → IsCopied S m a (x, n)
      → (T.IsIn 0 n.next n b → IsCopied T n b (y, o))
      → T.IsIn 0 m.next m b
      → IsCopied (both S T) m (a, b) ((x, y), o)
  join h k m n o a x b y (grown, old, fresh, reads) later inside =
      let moved = k.stays 0 m.next m n b inside old in
      let (grown_on, old_on, fresh_on, reads_on) =
        later (k.wider 0 m.next 0 n.next n b moved (omega arith) grown) in
      let kept = Agrees-narrow 0 n.next m.next n.next n o old_on (omega arith) (omega arith) in
      (
        omega arith,
        Agrees-trans 0 m.next m n o old
            (Agrees-narrow 0 n.next 0 m.next n o old_on (omega arith) grown),
        (
          h.wider m.next n.next m.next o.next o x (h.stays m.next n.next n o x fresh kept)
              (omega arith) grown_on,
          k.wider n.next o.next m.next o.next o y fresh_on grown (omega arith),
        ),
        λ i. (
          (h.same m.next n.next n o x fresh kept ∙ reads) i,
          (reads_on ∙ k.same 0 m.next m n b inside old) i,
        ),
      )

  pub both-Copies :
      {A B : Type 0} {S : Shape C A} {T : Shape C B} {f : Copying C A} {g : Copying C B}
      → IsShape S
      → IsShape T
      → Copies S f
      → Copies T g
      → Copies (both S T) (λ (a, b) m. let (x, n) = f a m in let (y, o) = g b n in ((x, y), o))
  both-Copies {f} {g} h k c d = record {
    copied = λ (a, b) m (first, second).
        let n = (f a m).1 in
        join h k m n (g b n).1 a (f a m).0 b (g b n).0 (c.copied a m first) (d.copied b n) second;
  }

  module _ {A : Type 0} {S : Shape C A} (h : IsShape S) {f : Copying C A} (c : Copies S f) where
    each-IsCopied :
        (xs : List A) (m : Memory C)
        → AreIn S 0 m.next m xs
        → IsCopied (elements S) m xs (each f xs m)
    each-IsCopied [] m inside = (omega arith, λ p from to. refl, tt, refl)
    each-IsCopied (a ∷ rest) m (first, others) =
        let n = (f a m).1 in
        let (grown, old, fresh, reads) =
          join h (elements-IsShape h) m n (each f rest n).1 a (f a m).0 rest (each f rest n).0
            (c.copied a m first) (each-IsCopied rest n) others in
        (grown, old, fresh, λ i. (reads i).0 ∷ (reads i).1)

    pub each-Copies : Copies (elements S) (each f)
    each-Copies = record { copied = each-IsCopied }

    module _ (storage : Storage C A) where
      -- What is stored in a cell of its own is reached through its address.
      store-IsPointerIn :
          (q : ℕ) (x : A) (n : Memory C)
          → suc q ≤ n.next
          → S.IsIn (suc q) n.next n x
          → let end = store storage q x n in
            IsPointerIn S storage q n.next end (some q)
            × (view_pointer S storage end (some q) ≡ some (S.view n x))
      store-IsPointerIn q x n above inside =
          let end = store storage q x n in
          let kept = write-Agrees_above q (storage.put x) (suc q) n.next n (omega arith) in
          let moved = h.stays (suc q) n.next n end x inside kept in
          let e = load-store storage q x n in
          (
            (
              omega arith,
              above,
              subst (S.IsIn q n.next end) (sym e)
                  (h.wider (suc q) n.next q n.next end x moved (omega arith) (omega arith)),
            ),
            ap some (ap (S.view end) e ∙ h.same (suc q) n.next n end x inside kept),
          )

      allocate-Agrees : (m : Memory C) → Agrees 0 m.next m (allocate storage m).1
      allocate-Agrees m q from to = grind arith

      new_copy-IsCopied :
          (p : ℕ) (m : Memory C)
          → IsPointerIn S storage 0 m.next m (some p)
          → IsCopied (pointer storage S) m (some p) (new_copy storage f (some p) m)
      new_copy-IsCopied p m inside =
          let start = (allocate storage m).1 in
          let unchanged = allocate-Agrees m in
          let a = load storage p start in
          let x = (f a start).0 in
          let n = (f a start).1 in
          let ph = pointer-IsShape h storage in
          let (from, to, held) =
            ph.wider 0 m.next 0 (suc m.next) start (some p)
              (ph.stays 0 m.next m start (some p) inside unchanged) (omega arith) (omega arith) in
          let (grown, old, fresh, reads) = c.copied a start held in
          let (own, means) = store-IsPointerIn m.next x n grown fresh in
          (
            omega arith,
            Agrees-trans 0 m.next m n (store storage m.next x n)
                (Agrees-trans 0 m.next m start n unchanged
                  (Agrees-narrow 0 (suc m.next) 0 m.next start n old (omega arith) (omega arith)))
                (write-Agrees_below m.next (storage.put x) 0 m.next n (omega arith)),
            own,
            means ∙ ap some reads ∙ ph.same 0 m.next m start (some p) inside unchanged,
          )

    pub new_copy-Copies : (storage : Storage C A) → Copies (pointer storage S) (new_copy storage f)
    new_copy-Copies storage = record { copied = choose }
      where
        choose :
            (p : Pointer) (m : Memory C)
            → IsPointerIn S storage 0 m.next m p
            → IsCopied (pointer storage S) m p (new_copy storage f p m)
        choose none m inside = (omega arith, λ p from to. refl, tt, refl)
        choose (some p) m inside = new_copy-IsCopied storage p m inside
