-- ===== src/DeepCopy/Memory.antt =====
-- The memory of the program, as far as the deep copies use it: cells at addresses, given out one after
-- the other, and what is stored in a cell. A slice is the address of the cell that holds its elements.
use rhbk_operator.Prelude.{
  ℕ, suc, ◌≤◌, ◌<◌, arith, ◌≡◌, ◌∙◌, Option, none, some, List, [], ◌∷◌, eqb, if◌then◌else◌,
}

-- A pointer, a slice or a map: `none` is nil.
abbrev pub Pointer : Type 0
Pointer = Option ℕ

-- `next` is the first address that was not given out.
pub record Memory (C : Type 0) : Type 0 where
  pub next : ℕ
  pub cells : ℕ → C

-- How the values of a type are stored: the zero value is what a cell of another type reads as.
pub record Storage (C A : Type 0) : Type 0 where
  pub put : A → C
  pub get : C → A
  pub get-put : (a : A) → get (put a) ≡ a
  pub zero_value : A

-- `DeepCopyInto`: the value for `*in` to the value for `*out`, and what became of the memory.
abbrev pub Copying : Type 0 → Type 0 → Type 0
Copying C A = A → Memory C → A × Memory C

module _ {C : Type 0} where
  abbrev pub write : ℕ → C → Memory C → Memory C
  write address c m = record m { cells = λ (p : ℕ). if eqb p address then c else m.cells p }

  -- The two memories have the same cells from one address up to another.
  abbrev pub Agrees : ℕ → ℕ → Memory C → Memory C → Type 0
  Agrees low high m later = (p : ℕ) → low ≤ p → p < high → later.cells p ≡ m.cells p

  module _ {A : Type 0} where
    -- `*p`
    abbrev pub load : Storage C A → ℕ → Memory C → A
    load storage p m = storage.get (m.cells p)

    -- `*p = a`
    abbrev pub store : Storage C A → ℕ → A → Memory C → Memory C
    store storage p a m = write p (storage.put a) m

    -- `new(A)`
    abbrev pub allocate : Storage C A → Memory C → ℕ × Memory C
    allocate storage m =
        (m.next, store storage m.next storage.zero_value (record m { next = suc m.next }))

    -- `*out = *in` where `A` has no pointers
    abbrev pub keep : A → Memory C → A × Memory C
    keep a m = (a, m)

    -- `if in != nil { out = new(A); into(*in, out) }`, and likewise with `make` for a slice or a map.
    abbrev pub new_copy : Storage C A → Copying C A → Pointer → Memory C → Pointer × Memory C
    new_copy storage into none m = (none, m)
    new_copy storage into (some p) m =
        let (q, allocated) = allocate storage m in
        let (a, filled) = into (load storage p allocated) allocated in
        (some q, store storage q a filled)

    -- `for i := range *in { (*in)[i].DeepCopyInto(&(*out)[i]) }`
    abbrev pub each : Copying C A → List A → Memory C → List A × Memory C
    each into [] m = ([], m)
    each into (a ∷ rest) m =
        let (b, copied) = into a m in let (others, end) = each into rest copied in (b ∷ others, end)

  -- A write changes no cell below its address, and none above it.
  pub write-Agrees_below :
      (p : ℕ) (c : C) (low high : ℕ) (m : Memory C) → high ≤ p → Agrees low high m (write p c m)
  write-Agrees_below p c low high m outside q from to = grind arith

  pub write-Agrees_above :
      (p : ℕ) (c : C) (low high : ℕ) (m : Memory C) → p < low → Agrees low high m (write p c m)
  write-Agrees_above p c low high m outside q from to = grind arith

  -- What is stored is what is loaded.
  pub load-store :
      {A : Type 0} (storage : Storage C A) (p : ℕ) (a : A) (m : Memory C)
      → load storage p (store storage p a m) ≡ a
  load-store storage p a m = ground (arith, storage.get-put a)

  -- Later cells that did not change: from an earlier memory to the last of three.
  pub Agrees-trans :
      (low high : ℕ) (m n o : Memory C)
      → Agrees low high m n
      → Agrees low high n o
      → Agrees low high m o
  Agrees-trans low high m n o first second p from to = second p from to ∙ first p from to

  pub Agrees-narrow :
      (low high inner outer : ℕ) (m n : Memory C)
      → Agrees low high m n
      → low ≤ inner
      → outer ≤ high
      → Agrees inner outer m n
  Agrees-narrow low high inner outer m n same above below p from to =
      same p (omega arith) (omega arith)
