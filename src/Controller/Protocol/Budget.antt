-- ===== src/Controller/Protocol/Budget.antt =====
-- How many requests a run of the import reconciler may make: each phase of the protocol leaves a
-- number of requests, and only an answer of the server that holds a list adds to it.
use rhbk_operator.Prelude.{
  ℕ, suc, ◌+◌, ◌≤◌, arith, ◌≡◌, refl, sym, subst, Bool, true, false, List, [], ◌∷◌, is_some, length,
}
use rhbk_operator.Prelude.Outcome.{Error, Outcome, ok, err, panic}
use rhbk_operator.Kube.Meta.{Key}
use rhbk_operator.Kube.Objects.{Secret}
use rhbk_operator.Kube.Libs.{Libs}
use rhbk_operator.Kube.Client.{Client}
use rhbk_operator.Kube.Recording.{
  Event, got_import, listed_jobs, listed_secrets, updated_import, recording, log_of,
}
use rhbk_operator.Controller.Import.Asks.{owned_jobs, owned_secrets, asked_jobs}
use rhbk_operator.Api.Types.{KeycloakImport}
use rhbk_operator.Api.Conditions.{ConditionLib, IsConditionLib}
use rhbk_operator.Controller.Import.{reconcile}
use rhbk_operator.Controller.Reply.{done}
use rhbk_operator.Controller.Protocol.{
  Phase, begin, deleted, cleaning, removing_jobs, listing_secrets, removing_secrets, holding,
  looking, located, fetching, listing, sweeping, reporting, closed, branch, give_up, try_again,
  blame, after_read, after_missing, Silent, dismiss, clean, clean_secrets, keep, not_up, value_only,
  unbuildable, rolled_out, Step, read, list_old_jobs, remove_job, list_old_secrets, remove_secret,
  release, hold, look, find, fetch, apply, list_jobs, sweep, create, roll_out, report, Trace, start,
  request, pass,
}
use rhbk_operator.Controller.Protocol.Run.{reconcile-Trace}

abbrev load : KeycloakImport → ℕ
load cr = length cr.spec.substitutions

-- The most requests that a phase has before it, but for what the server is yet to answer.
abbrev left : Phase → ℕ
left (begin key) = 11
left (deleted cr) = 10
left (cleaning cr) = 10
left (removing_jobs cr jobs) = length jobs + 9
left (listing_secrets cr) = 9
left (removing_secrets cr secrets) = length secrets + 8
left (holding cr) = load cr + 7
left (looking cr) = load cr + 6
left (located cr k) = load cr + 5
left (fetching cr s vs) = length vs + 4
left (listing cr s version) = 3
left (sweeping cr s version jobs) = length jobs + 2
left (reporting cr verdict) = 1
left (closed r) = 0

-- What an answer of the server gives a run to work through.
abbrev pub granted : Event → ℕ
granted (got_import _ (ok cr)) = length cr.spec.substitutions
granted (updated_import sent (ok cr)) = length cr.spec.substitutions
granted (listed_jobs _ _ (ok jobs)) = length jobs
granted (listed_secrets _ _ (ok secrets)) = length secrets
granted _ = 0

abbrev pub all_granted : List Event → ℕ
all_granted [] = 0
all_granted (e ∷ log) = granted e + all_granted log

left-branch :
    {A : Type 0} (r : Outcome A) (good : A → Phase) (bad : Error → Phase) (n : Outcome A → ℕ)
    {q : Phase}
    → q ≡ branch r good bad
    → ((a : A) → left (good a) ≤ n (ok a))
    → ((x : Error) → left (bad x) ≤ n (err x))
    → left q ≤ n r
left-branch (ok a) good bad n e well badly = subst (λ q. left q ≤ n (ok a)) (sym e) (well a)
left-branch (err x) good bad n e well badly = subst (λ q. left q ≤ n (err x)) (sym e) (badly x)
left-branch panic good bad n e well badly = subst (λ q. left q ≤ n panic) (sym e) (omega arith)

left-after_read : (cr : KeycloakImport) → left (after_read cr) ≤ load cr + 10
left-after_read cr = choose (is_some cr.meta.deletion_timestamp) refl
  where
    choose :
        (b : Bool) → is_some cr.meta.deletion_timestamp ≡ b → left (after_read cr) ≤ load cr + 10
    choose true e = rw e (omega arith)
    choose false e = rw e (omega arith)

module _ (libs : Libs) (lib : ConditionLib) where
  Silent-left : {p q : Phase} → Silent libs lib p q → left q ≤ left p
  Silent-left (dismiss h) = omega arith
  Silent-left (clean h) = omega arith
  Silent-left clean_secrets = omega arith
  Silent-left (keep h) = omega arith
  Silent-left (not_up h) = omega arith
  Silent-left (value_only h) = omega arith
  Silent-left (unbuildable h) = omega arith
  Silent-left (rolled_out current h) = omega arith

  -- A request takes one from what is left, and adds no more than what its answer grants.
  Step-left : {p q : Phase} {e : Event} → Step libs lib p e q → suc (left q) ≤ left p + granted e
  Step-left (read key r e) = omega (
    arith,
    left-branch r after_read after_missing (λ r. 10 + granted (got_import key r)) e
        (λ cr. omega (arith, left-after_read cr)) (λ x. omega arith),
  )
  Step-left (list_old_jobs cr r e) = omega (
    arith,
    left-branch r (removing_jobs cr) give_up (λ r. 9 + granted (owned_jobs cr r)) e
        (λ a. omega arith) (λ x. omega arith),
  )
  Step-left (remove_job cr job jobs r e) = omega (
    arith,
    left-branch r (λ _. removing_jobs cr jobs) give_up (λ _. length jobs + 9) e (λ a. omega arith)
        (λ x. omega arith),
  )
  Step-left (list_old_secrets cr r e) = omega (
    arith,
    left-branch r (removing_secrets cr) give_up (λ r. 8 + granted (owned_secrets cr r)) e
        (λ a. omega arith) (λ x. omega arith),
  )
  Step-left (remove_secret cr s secrets r e) = omega (
    arith,
    left-branch r (λ _. removing_secrets cr secrets) give_up (λ _. length secrets + 8) e
        (λ a. omega arith) (λ x. omega arith),
  )
  Step-left (release cr r e) = omega (
    arith,
    left-branch r holding give_up (λ r. 7 + granted (updated_import cr r)) e (λ a. omega arith)
        (λ x. omega arith),
  )
  Step-left (hold cr r h e) = omega (
    arith,
    left-branch r looking give_up (λ r. 6 + granted (updated_import cr r)) e (λ a. omega arith)
        (λ x. omega arith),
  )
  Step-left (look cr r e) = omega (
    arith,
    left-branch r (located cr) (blame cr) (λ _. load cr + 5) e (λ a. omega arith)
        (λ x. omega arith),
  )
  Step-left (find cr k r h e) = omega (
    arith,
    left-branch r (λ s. fetching cr s cr.spec.substitutions) (blame cr) (λ _. load cr + 4) e
        (λ a. omega arith) (λ x. omega arith),
  )
  Step-left (fetch cr s v vs selector r h e) = omega (
    arith,
    left-branch r (λ _. fetching cr s vs) (blame cr) (λ _. length vs + 4) e (λ a. omega arith)
        (λ x. omega arith),
  )
  Step-left (apply cr s r e) = omega (
    arith,
    left-branch r (λ (secret : Secret). listing cr s secret.meta.resource_version) (blame cr)
        (λ _. 3) e (λ a. omega arith) (λ x. omega arith),
  )
  Step-left (list_jobs cr s version r e) = omega (
    arith,
    left-branch r (sweeping cr s version) (blame cr) (λ r. 2 + granted (asked_jobs cr r)) e
        (λ a. omega arith) (λ x. omega arith),
  )
  Step-left (sweep cr s version job jobs r h e) = omega (
    arith,
    left-branch r (λ _. sweeping cr s version jobs) (blame cr) (λ _. length jobs + 2) e
        (λ a. omega arith) (λ x. omega arith),
  )
  Step-left (create cr s version job r h e) = omega (
    arith,
    left-branch r (λ _. reporting cr false) try_again (λ _. 1) e (λ a. omega arith)
        (λ x. omega arith),
  )
  Step-left (roll_out cr s marked version job jobs r current needed same e) = omega (
    arith,
    left-branch r (λ _. reporting cr true) try_again (λ _. 1) e (λ a. omega arith)
        (λ x. omega arith),
  )
  Step-left (report cr sent verdict r same says e) = omega (
    arith,
    left-branch r (λ _. closed (ok done)) give_up (λ _. 0) e (λ a. omega arith) (λ x. omega arith),
  )

  Trace-left :
      {key : Key} {log : List Event} {p : Phase}
      → Trace libs lib key log p
      → length log + left p ≤ 11 + all_granted log
  Trace-left start = omega arith
  Trace-left (request {log} e path step) = omega (arith, Trace-left path, Step-left step)
  Trace-left (pass path silent) = omega (arith, Trace-left path, Silent-left silent)

  -- Where the condition library keeps its laws, a run of the import reconciler makes at most eleven
  -- requests, and one more for each substitution of an import, each job and each secret that the
  -- answers of the run handed it.
  pub reconcile-Bounded :
      {W : Type 0} (client : Client W)
      → IsConditionLib lib
      → (key : Key) (w : W)
      → let log = log_of (reconcile (recording client) libs lib key (w, [])) in
        length log ≤ 11 + all_granted log
  reconcile-Bounded client laws key w =
      omega (arith, Trace-left (reconcile-Trace client libs lib laws key w))
