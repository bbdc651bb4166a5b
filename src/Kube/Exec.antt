-- ===== src/Kube/Exec.antt =====
-- Code that talks to the API server: it goes from one state of the world to the next, and ends in
-- a value, an error or a panic. What was done before an error stays done.
use rhbk_operator.Prelude.Outcome.{Error, Outcome, ok, err, panic}

abbrev pub Exec {ℓ} : Type ℓ → Type ℓ → Type ℓ
Exec W A = W → Outcome A × W

module _ {ℓ} {W A : Type ℓ} where
  abbrev pub pure : A → Exec W A
  pure a w = (ok a, w)

  abbrev pub lift : Outcome A → Exec W A
  lift r w = (r, w)

module _ {ℓ} {W A B : Type ℓ} where
  abbrev pub continue : Outcome A → (Error → Exec W B) → (A → Exec W B) → Exec W B
  continue (ok a) fail f = f a
  continue (err e) fail f = fail e
  continue panic fail f = λ w. (panic, w)

  -- `a, err := m; if err != nil { return fail(err) }; f(a)`
  abbrev pub attempt : Exec W A → (Error → Exec W B) → (A → Exec W B) → Exec W B
  attempt m fail f = λ w. let (r, w') = m w in continue r fail f w'

  infixl 5 ◌>>=◌ ◌>>◌
  -- An error ends the function with that error.
  abbrev pub ◌>>=◌ : Exec W A → (A → Exec W B) → Exec W B
  m >>= f = attempt m (λ e w. (err e, w)) f

  abbrev pub ◌>>◌ : Exec W A → Exec W B → Exec W B
  m >> n = m >>= λ _. n
