-- ===== src/Controller/Protocol/Provenance/Subjects.antt =====
-- Each phase of a run is about an import that was read in it.
use mathlib.Core.List.Memᴰ.{head, tail}
use rhbk_operator.Prelude.{
  ◌≡◌, refl, sym, ap, subst, inl, inr, Bool, true, false, List, ◌∷◌, is_some,
}
use rhbk_operator.Prelude.Outcome.{Error, Outcome, ok, err, panic}
use rhbk_operator.Kube.Meta.{Key}
use rhbk_operator.Kube.Objects.{Secret}
use rhbk_operator.Kube.Libs.{Libs}
use rhbk_operator.Kube.Recording.{Event, updated_import}
use rhbk_operator.Api.Types.{KeycloakImport}
use rhbk_operator.Api.Conditions.{ConditionLib}
use rhbk_operator.Controller.Reply.{done}
use rhbk_operator.Controller.Import.Deletion.{released, held}
use rhbk_operator.Controller.Protocol.{
  Phase, removing_jobs, removing_secrets, holding, looking, located, fetching, listing, sweeping,
  reporting, closed, branch, give_up, try_again, blame, after_read, after_missing, Silent, dismiss,
  clean, clean_secrets, keep, not_up, value_only, unbuildable, rolled_out, Step, read,
  list_old_jobs, remove_job, list_old_secrets, remove_secret, release, hold, look, find, fetch,
  apply, list_jobs, sweep, create, roll_out, report,
}
use rhbk_operator.Controller.Protocol.Provenance.{WasRead, Subject}

WasRead-later :
    {key : Key} {cr : KeycloakImport} {e : Event} {log : List Event}
    → WasRead key cr log
    → WasRead key cr (e ∷ log)
WasRead-later (inl m) = inl (tail m)
WasRead-later (inr (sent, m)) = inr (sent, tail m)

Subject-branch :
    (key : Key) {A : Type 0} (r : Outcome A) (good : A → Phase) (bad : Error → Phase)
    (log : List Event) {q : Phase}
    → q ≡ branch r good bad
    → ((a : A) → r ≡ ok a → Subject key (good a) log)
    → ((e : Error) → Subject key (bad e) log)
    → Subject key q log
Subject-branch key (ok a) good bad log e well badly =
    subst (λ q. Subject key q log) (sym e) (well a refl)
Subject-branch key (err x) good bad log e well badly =
    subst (λ q. Subject key q log) (sym e) (badly x)
Subject-branch key panic good bad log e well badly = subst (λ q. Subject key q log) (sym e) tt

Subject-after_read :
    (key : Key) (cr : KeycloakImport) (log : List Event)
    → WasRead key cr log
    → Subject key (after_read cr) log
Subject-after_read key cr log h = choose (is_some cr.meta.deletion_timestamp) refl
  where
    choose : (b : Bool) → is_some cr.meta.deletion_timestamp ≡ b → Subject key (after_read cr) log
    choose true e = rw e h
    choose false e = rw e h

module _ (libs : Libs) (lib : ConditionLib) (key : Key) where
  pub Silent-Subject :
      {p q : Phase} (log : List Event) → Silent libs lib p q → Subject key p log → Subject key q log
  Silent-Subject log (dismiss h) subject = tt
  Silent-Subject log (clean h) subject = subject
  Silent-Subject log clean_secrets subject = subject
  Silent-Subject log (keep h) subject = subject
  Silent-Subject log (not_up h) subject = subject
  Silent-Subject log (value_only h) subject = tt
  Silent-Subject log (unbuildable h) subject = tt
  Silent-Subject log (rolled_out current h) subject = subject

  pub Step-Subject :
      {p q : Phase} {e : Event} (log : List Event)
      → Step libs lib p e q
      → Subject key p log
      → Subject key q (e ∷ log)
  Step-Subject log (read key' r e) subject =
      Subject-branch key r after_read after_missing _ e
        (λ cr h. Subject-after_read key cr _ (inl (head (rw (subject, h) refl)))) (λ x. tt)
  Step-Subject log (list_old_jobs cr r e) subject =
      Subject-branch key r (removing_jobs cr) give_up _ e (λ a h. WasRead-later subject) (λ x. tt)
  Step-Subject log (remove_job cr job jobs r e) subject =
      Subject-branch key r (λ _. removing_jobs cr jobs) give_up _ e (λ a h. WasRead-later subject)
        (λ x. tt)
  Step-Subject log (list_old_secrets cr r e) subject =
      Subject-branch key r (removing_secrets cr) give_up _ e (λ a h. WasRead-later subject)
        (λ x. tt)
  Step-Subject log (remove_secret cr s secrets r e) subject =
      Subject-branch key r (λ _. removing_secrets cr secrets) give_up _ e
        (λ a h. WasRead-later subject) (λ x. tt)
  Step-Subject log (release cr r e) subject =
      Subject-branch key r holding give_up _ e
        (λ kept h.
          inr (released libs cr, head {xs = log} (ap (updated_import (released libs cr)) (sym h))))
        (λ x. tt)
  Step-Subject log (hold cr r h e) subject =
      Subject-branch key r looking give_up _ e
        (λ kept h. inr (held libs cr, head {xs = log} (ap (updated_import (held libs cr)) (sym h))))
        (λ x. tt)
  Step-Subject log (look cr r e) subject =
      Subject-branch key r (located cr) (blame cr) _ e (λ a h. WasRead-later subject)
        (λ x. WasRead-later subject)
  Step-Subject log (find cr k r h e) subject =
      Subject-branch key r (λ s. fetching cr s cr.spec.substitutions) (blame cr) _ e
        (λ a h. WasRead-later subject) (λ x. WasRead-later subject)
  Step-Subject log (fetch cr s v vs selector r h e) subject =
      Subject-branch key r (λ _. fetching cr s vs) (blame cr) _ e (λ a h. WasRead-later subject)
        (λ x. WasRead-later subject)
  Step-Subject log (apply cr s r e) subject =
      Subject-branch key r (λ (secret : Secret). listing cr s secret.meta.resource_version)
        (blame cr) _ e (λ a h. WasRead-later subject) (λ x. WasRead-later subject)
  Step-Subject log (list_jobs cr s version r e) subject =
      Subject-branch key r (sweeping cr s version) (blame cr) _ e (λ a h. WasRead-later subject)
        (λ x. WasRead-later subject)
  Step-Subject log (sweep cr s version job jobs r h e) subject =
      Subject-branch key r (λ _. sweeping cr s version jobs) (blame cr) _ e
        (λ a h. WasRead-later subject) (λ x. WasRead-later subject)
  Step-Subject log (create cr s version job r h e) subject =
      Subject-branch key r (λ _. reporting cr false) try_again _ e (λ a h. WasRead-later subject)
        (λ x. tt)
  Step-Subject log (roll_out cr s marked version job jobs r current needed same e) subject =
      Subject-branch key r (λ _. reporting cr true) try_again _ e (λ a h. WasRead-later subject)
        (λ x. tt)
  Step-Subject log (report cr sent verdict r same says e) subject =
      Subject-branch key r (λ _. closed (ok done)) give_up _ e (λ a h. tt) (λ x. tt)
