-- ===== src/Controller/Progress/Requests.antt =====
-- Rules for code whose requests are answered, one for each way in which the code is put together.
use rhbk_operator.Prelude.{◌≡◌, Bool, true, false, if◌then◌else◌}
use rhbk_operator.Prelude.Outcome.{Error, Outcome, ok}
use rhbk_operator.Kube.Exec.{Exec, lift, attempt}
use rhbk_operator.Controller.Progress.{View, Gives, Shows}

module _ {W : Type 0} (view : W → View) where
  pub gives-attempt :
      {A B : Type 0} (m : Exec W A) (fail : Error → Exec W B) (f : A → Exec W B) (w : W) {a : A}
      {b : B} (v : View) (Q : View → Type 0)
      → Gives view m w a (Shows v)
      → ((w' : W) → view w' ≡ v → Gives view (f a) w' b Q)
      → Gives view (attempt m fail f) w b Q
  gives-attempt m fail f w v Q (w', e, h) next = let (w'', e', h') = next w' h in (w'', rw e e', h')

  pub gives-lift :
      {A : Type 0} (r : Outcome A) (w : W) {a : A} (v : View)
      → r ≡ ok a
      → view w ≡ v
      → Gives view (lift r) w a (Shows v)
  gives-lift r w v e h = (w, (λ i. (e i, w)), h)

  pub gives-else :
      {A : Type 0} (b : Bool) (m n : Exec W A) (w : W) {a : A} (Q : View → Type 0)
      → b ≡ false
      → Gives view n w a Q
      → Gives view (if b then m else n) w a Q
  gives-else b m n w Q e g = rw e g

  pub gives-then :
      {A : Type 0} (b : Bool) (m n : Exec W A) (w : W) {a : A} (Q : View → Type 0)
      → b ≡ true
      → Gives view m w a Q
      → Gives view (if b then m else n) w a Q
  gives-then b m n w Q e g = rw e g
