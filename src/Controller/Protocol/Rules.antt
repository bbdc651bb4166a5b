-- ===== src/Controller/Protocol/Rules.antt =====
-- Rules for code that follows the protocol, one for each way in which the reconciler is put together.
use rhbk_operator.Prelude.{◌≡◌, refl, sym, List}
use mathlib.Core.Path.{subst}
use rhbk_operator.Prelude.Outcome.{Error, Outcome, ok, err, panic}
use rhbk_operator.Kube.Meta.{Key}
use rhbk_operator.Kube.Exec.{Exec, lift, continue, attempt}
use rhbk_operator.Kube.Libs.{Libs}
use rhbk_operator.Kube.Recording.{Event, Recorded, recorded, log_of}
use rhbk_operator.Api.Conditions.{ConditionLib}
use rhbk_operator.Controller.Reply.{Reply}
use rhbk_operator.Controller.Protocol.{Phase, closed, branch, Silent, Step, Trace, request, pass}

-- The run is over, and this is its answer.
abbrev pub Ends : Outcome Reply → Phase → Type 0
Ends r q = q ≡ closed r

-- The code came to an end well in one phase, and badly in another.
abbrev pub Lands : {A : Type 0} → Phase → (Error → Phase) → Outcome A → Phase → Type 0
Lands good bad (ok _) q = q ≡ good
Lands good bad (err e) q = q ≡ bad e
Lands good bad panic q = q ≡ closed panic

module _ (libs : Libs) (lib : ConditionLib) {W : Type 0} where
  -- From a phase, the code goes on by the protocol, to a phase that its outcome is in relation to.
  abbrev pub Follows :
      {A : Type 0} → Phase → Exec (Recorded W) A → (Outcome A → Phase → Type 0) → Type 0
  Follows p m Q =
      (key : Key) (w : W) (log : List Event)
      → Trace libs lib key log p
      → (q : Phase) × Trace libs lib key (log_of (m (w, log))) q × Q (m (w, log)).0 q

  pub follow-lift :
      {A : Type 0} (p : Phase) (r : Outcome A) (Q : Outcome A → Phase → Type 0)
      → Q r p
      → Follows p (lift r) Q
  follow-lift p r Q h key w log path = (p, path, h)

  pub follow-silent :
      {A : Type 0} (p q : Phase) (m : Exec (Recorded W) A) (Q : Outcome A → Phase → Type 0)
      → Silent libs lib p q
      → Follows q m Q
      → Follows p m Q
  follow-silent p q m Q s h key w log path = h key w log (pass path s)

  pub follow-at :
      {A : Type 0} (p q : Phase) (m : Exec (Recorded W) A) (Q : Outcome A → Phase → Type 0)
      → q ≡ p
      → Follows p m Q
      → Follows q m Q
  follow-at p q m Q e = subst (λ p. Follows p m Q) (sym e)

  -- One request of the client.
  pub follow-request :
      {A : Type 0} (p : Phase) (event : Outcome A → Event) (m : Exec W A) (good : A → Phase)
      (bad : Error → Phase) (Q : Outcome A → Phase → Type 0)
      → ((r : Outcome A) → Step libs lib p (event r) (branch r good bad))
      → ((r : Outcome A) → Q r (branch r good bad))
      → Follows p (recorded event m) Q
  follow-request p event m good bad Q step post key w log path =
      (branch (m w).0 good bad, request (event (m w).0) path (step (m w).0), post (m w).0)

  -- A part of the code that makes requests, and what follows it.
  pub follow-attempt :
      {A B : Type 0} (p : Phase) (m : Exec (Recorded W) A) (fail : Error → Exec (Recorded W) B)
      (f : A → Exec (Recorded W) B) (Q : Outcome A → Phase → Type 0)
      (R : Outcome B → Phase → Type 0)
      → Follows p m Q
      → ((r : Outcome A) (q : Phase) → Q r q → Follows q (continue r fail f) R)
      → Follows p (attempt m fail f) R
  follow-attempt p m fail f Q R first then key w log path =
      let (q, path', h) = first key w log path in
      then (m (w, log)).0 q h key (m (w, log)).1.0 (log_of (m (w, log))) path'

  -- One request, and what follows each of its outcomes.
  pub follow-branch :
      {A B : Type 0} (p : Phase) (event : Outcome A → Event) (m : Exec W A)
      (fail : Error → Exec (Recorded W) B) (f : A → Exec (Recorded W) B) (good : A → Phase)
      (bad : Error → Phase) (R : Outcome B → Phase → Type 0)
      → ((r : Outcome A) → Step libs lib p (event r) (branch r good bad))
      → ((a : A) → Follows (good a) (f a) R)
      → ((e : Error) → Follows (bad e) (fail e) R)
      → R panic (closed panic)
      → Follows p (attempt (recorded event m) fail f) R
  follow-branch {A} p event m fail f good bad R step well badly crash =
      follow-attempt p (recorded event m) fail f (λ r q. q ≡ branch r good bad) R
        (follow-request p event m good bad (λ r q. q ≡ branch r good bad) step (λ r. refl))
        (λ r q e. follow-at (branch r good bad) q (continue r fail f) R e (next r))
    where
      next : (r : Outcome A) → Follows (branch r good bad) (continue r fail f) R
      next (ok a) = well a
      next (err e) = badly e
      next panic = λ key w log path. (closed panic, path, crash)
