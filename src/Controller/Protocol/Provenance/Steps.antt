-- ===== src/Controller/Protocol/Provenance/Steps.antt =====
-- Each step of the protocol is justified by the record, and leaves a record that holds what the next
-- phase is to know.
use mathlib.Core.List.Memᴰ.{head, tail}
use rhbk_operator.Prelude.{
  String, ◌≡◌, refl, sym, ap, arith, subst, inl, inr, Bool, true, false, List, ◌∷◌, is_some,
}
use rhbk_operator.Prelude.Outcome.{Error, Outcome, ok, err, panic}
use rhbk_operator.Kube.Meta.{Key, named}
use rhbk_operator.Realm.Names.{get_import_job_secret_name}
use rhbk_operator.Kube.Objects.{StatefulSet, Secret, Job}
use rhbk_operator.Kube.Libs.{Libs}
use rhbk_operator.Kube.Recording.{
  Event, got_import, created_job, deleted_secret, updated_import, updated_stateful_set,
  set_import_status, applied_secret,
}
use rhbk_operator.Controller.Import.Asks.{
  asked_keycloak, asked_stateful_set, asked_secret, asked_jobs, owned_jobs, owned_secrets,
  removed_job,
}
use rhbk_operator.Kube.Recording.Removals.{
  WasListed, Left-listed, Left-deleted, Left-WasListed, Left-AreGone, AreGone-later,
}
use rhbk_operator.Api.Types.{KeycloakImport}
use rhbk_operator.Api.Conditions.{ConditionLib}
use rhbk_operator.Controller.Reply.{done}
use rhbk_operator.Controller.Protocol.{
  Phase, removing_jobs, removing_secrets, holding, looking, located, fetching, listing, sweeping,
  reporting, closed, branch, give_up, try_again, blame, after_read, after_missing, Silent, dismiss,
  clean, clean_secrets, keep, not_up, value_only, unbuildable, rolled_out, Step, read,
  list_old_jobs, remove_job, list_old_secrets, remove_secret, release, hold, look, find, fetch,
  apply, list_jobs, sweep, create, roll_out, report,
}
use rhbk_operator.Controller.Protocol.Provenance.{IsPrepared, IsJustified, Knows, Subject}

module _ (libs : Libs) (lib : ConditionLib) where
  IsPrepared-later :
      (cr : KeycloakImport) (s : StatefulSet) (version : String) (e : Event) (log : List Event)
      → IsPrepared libs lib cr s version log
      → IsPrepared libs lib cr s version (e ∷ log)
  IsPrepared-later cr s version e log ((k, found, seen, up), (secret, same, applied)) =
      ((k, tail found, tail seen, up), (secret, same, tail applied))

  WasListed-later :
      (cr : KeycloakImport) (job : Job) (e : Event) (log : List Event)
      → WasListed (asked_jobs cr) removed_job job log
      → WasListed (asked_jobs cr) removed_job job (e ∷ log)
  WasListed-later cr job e log (all, known, m) = (all, tail known, m)

  -- A phase that asks nothing follows the errors.
  Knows-branch :
      {A : Type 0} (r : Outcome A) (good : A → Phase) (bad : Error → Phase) (log : List Event)
      {q : Phase}
      → q ≡ branch r good bad
      → ((a : A) → r ≡ ok a → Knows libs lib (good a) log)
      → ((e : Error) → Knows libs lib (bad e) log)
      → Knows libs lib q log
  Knows-branch (ok a) good bad log e well badly =
      subst (λ q. Knows libs lib q log) (sym e) (well a refl)
  Knows-branch (err x) good bad log e well badly =
      subst (λ q. Knows libs lib q log) (sym e) (badly x)
  Knows-branch panic good bad log e well badly = subst (λ q. Knows libs lib q log) (sym e) tt

  Knows-after_read : (cr : KeycloakImport) (log : List Event) → Knows libs lib (after_read cr) log
  Knows-after_read cr log = choose (is_some cr.meta.deletion_timestamp) refl
    where
      choose :
          (b : Bool) → is_some cr.meta.deletion_timestamp ≡ b → Knows libs lib (after_read cr) log
      choose true e = rw e e
      choose false e = rw e tt

  pub Silent-Knows :
      {p q : Phase} (log : List Event)
      → Silent libs lib p q
      → Knows libs lib p log
      → Knows libs lib q log
  Silent-Knows log (dismiss h) known = tt
  Silent-Knows log (clean h) known = known
  Silent-Knows log (clean_secrets {cr}) (gone, left) =
      (gone, Left-AreGone (owned_jobs cr) removed_job log left)
  Silent-Knows log (keep h) known = tt
  Silent-Knows log (not_up h) known = tt
  Silent-Knows log (value_only h) known = tt
  Silent-Knows log (unbuildable h) known = tt
  Silent-Knows log (rolled_out {cr} {s} {version} {job} current none_needed) (prepared, known) =
      (s, version, job, prepared, (known job (head refl), current), inl none_needed)

  pub Step-IsJustified :
      (key : Key) {p q : Phase} {e : Event} (log : List Event)
      → Step libs lib p e q
      → Knows libs lib p log
      → Subject key p log
      → IsJustified libs lib key e log
  Step-IsJustified key log (read other r e) known subject = tt
  Step-IsJustified key log (list_old_jobs cr r e) known subject = tt
  Step-IsJustified key log (remove_job cr job jobs r e) (gone, left) subject =
      (refl, cr, subject, inr (Left-WasListed (owned_jobs cr) removed_job job jobs log left))
  Step-IsJustified key log (list_old_secrets cr r e) known subject = tt
  Step-IsJustified key log (remove_secret cr s secrets r e) (gone, jobs_gone, left) subject =
      (cr, subject, Left-WasListed (owned_secrets cr) deleted_secret s secrets log left)
  Step-IsJustified key log (release cr r e) (gone, jobs_gone, left) subject = (
    cr,
    subject,
    inr (refl, gone, jobs_gone, Left-AreGone (owned_secrets cr) deleted_secret log left),
  )
  Step-IsJustified key log (hold cr r h e) known subject = (cr, subject, inl refl)
  Step-IsJustified key log (look cr r e) known subject = tt
  Step-IsJustified key log (find cr k r h e) known subject = tt
  Step-IsJustified key log (fetch cr s v vs selector r h e) known subject = tt
  Step-IsJustified key log (apply cr s r e) known subject = (cr, subject, s, refl, known)
  Step-IsJustified key log (list_jobs cr s version r e) known subject = tt
  Step-IsJustified key log (sweep cr s version job jobs r h e) (prepared, known) subject =
      (refl, cr, subject, inl (known job (head refl)))
  Step-IsJustified key log (create cr s version job r h e) (prepared, known) subject =
      (cr, subject, s, version, prepared, h)
  Step-IsJustified key log (roll_out cr s marked version job jobs r current needed same e)
        (prepared, known) subject =
      (cr, subject, s, version, job, prepared, (known job (head refl), current), needed, same)
  Step-IsJustified key log (report cr sent true r same says e) known subject =
      (cr, subject, same, λ h. known)
  Step-IsJustified key log (report cr sent false r same says e) known subject =
      (cr, subject, same, λ h. ground arith)

  pub Step-Knows :
      {p q : Phase} {e : Event} (log : List Event)
      → Step libs lib p e q
      → Knows libs lib p log
      → Knows libs lib q (e ∷ log)
  Step-Knows log (read key r e) known =
      Knows-branch r after_read after_missing (got_import key r ∷ log) e
        (λ cr h. Knows-after_read cr (got_import key r ∷ log)) (λ x. tt)
  Step-Knows log (list_old_jobs cr r e) known =
      Knows-branch r (removing_jobs cr) give_up (owned_jobs cr r ∷ log) e
        (λ jobs h. (known, rw h (Left-listed (owned_jobs cr) removed_job jobs log))) (λ x. tt)
  Step-Knows log (remove_job cr job jobs r e) (gone, left) =
      Knows-branch r (λ _. removing_jobs cr jobs) give_up (removed_job job r ∷ log) e
        (λ a h. (gone, rw h (Left-deleted (owned_jobs cr) removed_job job jobs log left))) (λ x. tt)
  Step-Knows log (list_old_secrets cr r e) (gone, jobs_gone) =
      Knows-branch r (removing_secrets cr) give_up (owned_secrets cr r ∷ log) e
        (λ secrets h. (
          gone,
          AreGone-later (owned_jobs cr) removed_job (owned_secrets cr r) log jobs_gone,
          rw h (Left-listed (owned_secrets cr) deleted_secret secrets log),
        ))
        (λ x. tt)
  Step-Knows log (remove_secret cr s secrets r e) (gone, jobs_gone, left) =
      Knows-branch r (λ _. removing_secrets cr secrets) give_up (deleted_secret s r ∷ log) e
        (λ a h. (
          gone,
          AreGone-later (owned_jobs cr) removed_job (deleted_secret s r) log jobs_gone,
          rw h (Left-deleted (owned_secrets cr) deleted_secret s secrets log left),
        ))
        (λ x. tt)
  Step-Knows log (release cr r e) known =
      Knows-branch r holding give_up (updated_import _ r ∷ log) e (λ kept h. tt) (λ x. tt)
  Step-Knows log (hold cr r h e) known =
      Knows-branch r looking give_up (updated_import _ r ∷ log) e (λ kept h. tt) (λ x. tt)
  Step-Knows log (look cr r e) known =
      Knows-branch r (located cr) (blame cr) (asked_keycloak cr r ∷ log) e
        (λ k h. head (ap (asked_keycloak cr) (sym h))) (λ x. tt)
  Step-Knows log (find cr k r up e) known =
      Knows-branch r (λ s. fetching cr s cr.spec.substitutions) (blame cr)
        (asked_stateful_set k r ∷ log) e
        (λ s h. (k, head (ap (asked_stateful_set k) (sym h)), tail known, up)) (λ x. tt)
  Step-Knows log (fetch cr s v vs selector r h e) (k, found, seen, up) =
      Knows-branch r (λ _. fetching cr s vs) (blame cr) (asked_secret cr selector r ∷ log) e
        (λ secret h. (k, tail found, tail seen, up)) (λ x. tt)
  Step-Knows log (apply cr s r e) (k, found, seen, up) =
      let sent =
        applied_secret
          (named (get_import_job_secret_name cr) cr.spec.keycloak_instance.namespace) in
      Knows-branch r (λ (secret : Secret). listing cr s secret.meta.resource_version) (blame cr)
        (sent r ∷ log) e
        (λ secret h.
          ((k, tail found, tail seen, up), (secret, refl, head {xs = log} (ap sent (sym h)))))
        (λ x. tt)
  Step-Knows log (list_jobs cr s version r e) known =
      Knows-branch r (sweeping cr s version) (blame cr) (asked_jobs cr r ∷ log) e
        (λ jobs h. (
          IsPrepared-later cr s version (asked_jobs cr r) log known,
          λ job m. (jobs, head (ap (asked_jobs cr) (sym h)), m),
        ))
        (λ x. tt)
  Step-Knows log (sweep cr s version job jobs r h e) (prepared, known) =
      Knows-branch r (λ _. sweeping cr s version jobs) (blame cr) (removed_job job r ∷ log) e
        (λ a h. (
          IsPrepared-later cr s version (removed_job job r) log prepared,
          λ j m. WasListed-later cr j (removed_job job r) log (known j (tail m)),
        ))
        (λ x. tt)
  Step-Knows log (create cr s version job r h e) known =
      Knows-branch r (λ _. reporting cr false) try_again (created_job job r ∷ log) e (λ a h. tt)
        (λ x. tt)
  Step-Knows log (roll_out cr s marked version job jobs r current needed same e) (prepared, known) =
      Knows-branch r (λ _. reporting cr true) try_again (updated_stateful_set marked r ∷ log) e
        (λ a h. (
          s,
          version,
          job,
          IsPrepared-later cr s version (updated_stateful_set marked r) log prepared,
          (
            WasListed-later cr job (updated_stateful_set marked r) log (known job (head refl)),
            current,
          ),
          inr (marked, same, head (ap (updated_stateful_set marked) (sym h))),
        ))
        (λ x. tt)
  Step-Knows log (report cr sent verdict r same says e) known =
      Knows-branch r (λ _. closed (ok done)) give_up (set_import_status sent r ∷ log) e (λ a h. tt)
        (λ x. tt)
