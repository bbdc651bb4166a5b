-- ===== src/Controller/Import/Jobs.antt =====
-- The loop over the import jobs: which jobs it deletes, and which one it finds.
use rhbk_operator.Prelude.{
  String, ◌≡◌, refl, ap, Bool, true, false, Option, none, some, List, [], ◌∷◌, ◌++◌, All,
  if◌then◌else◌,
}
use rhbk_operator.Prelude.Outcome.{Outcome, ok, err, panic}
use rhbk_operator.Kube.Objects.{Job}
use rhbk_operator.Kube.Exec.{pure, ◌>>◌}
use rhbk_operator.Kube.Libs.{Libs}
use rhbk_operator.Kube.Client.{foreground, Client}
use rhbk_operator.Kube.Recording.{Event, Recorded, recorded, recording, log_of, attempt-recorded}
use rhbk_operator.Api.Types.{KeycloakImport}
use rhbk_operator.Api.Conditions.{ConditionLib}
use rhbk_operator.Controller.Import.Asks.{removed_job}
use rhbk_operator.Controller.Import.{is_current, find_job}

-- The record grew by a deletion of each of the jobs, in their order, each of which went well.
abbrev pub Deletes : List Job → List Event → List Event → Type 0
Deletes [] before after = after ≡ before
Deletes (job ∷ jobs) before after = Deletes jobs (removed_job job (ok tt) ∷ before) after

module _ (cr : KeycloakImport) (version : String) where
  abbrev pub IsStale : Job → Type 0
  IsStale job = is_current cr version job ≡ false

  -- One more stale job was to be deleted, its deletion ended like this, and it is the last event.
  abbrev pub Breaks : Outcome (Unit {0}) → List Job → List Event → List Event → Type 0
  Breaks r rest swept after =
      (job : Job) × (others : List Job) × (rest ≡ job ∷ others)
      × IsStale job
      × (after ≡ removed_job job r ∷ swept)

  -- What the loop answers, against the jobs that it did not delete and the end of its record.
  abbrev pub Found : Outcome (Option Job) → List Job → List Event → List Event → Type 0
  Found (ok (some job)) rest swept after =
      (is_current cr version job ≡ true)
      × ((others : List Job) × (rest ≡ job ∷ others))
      × (after ≡ swept)
  Found (ok none) rest swept after = (rest ≡ []) × (after ≡ swept)
  Found (err e) rest swept after = Breaks (err e) rest swept after
  Found panic rest swept after = Breaks panic rest swept after

  abbrev pub Sweeps : List Job → List Event → Outcome (Option Job) × List Event → Type 0
  Sweeps jobs before (r, after) =
      (stale : List Job) × (rest : List Job) × (swept : List Event) × (jobs ≡ stale ++ rest)
      × All IsStale stale
      × Deletes stale before swept
      × Found r rest swept after

module _ {W : Type 0} (client : Client W) (libs : Libs) (lib : ConditionLib) (cr : KeycloakImport)
    (version : String) where
  abbrev end_of : Outcome (Option Job) × Recorded W → Outcome (Option Job) × List Event
  end_of end = (end.0, log_of end)

  -- One more stale job in front of a sweep.
  Sweeps-cons :
      (job : Job) (jobs : List Job) (before : List Event) (end : Outcome (Option Job) × List Event)
      → is_current cr version job ≡ false
      → Sweeps cr version jobs (removed_job job (ok tt) ∷ before) end
      → Sweeps cr version (job ∷ jobs) before end
  Sweeps-cons job jobs before end stale (gone, rest, swept, split, all, deletes, found) =
      (job ∷ gone, rest, swept, ap (λ l. job ∷ l) split, (stale, all), deletes, found)

  module _ (job : Job) (jobs : List Job) (w : W) (log : List Event)
      (later : (w' : W) (log' : List Event)
        → Sweeps cr version jobs log'
            (end_of (find_job (recording client) libs lib cr version jobs (w', log')))) where
    step :
        (b : Bool)
        → is_current cr version job ≡ b
        → Sweeps cr version (job ∷ jobs) log (
            end_of (
              (if b
                  then pure (some job)
                  else (recorded (removed_job job) (client.delete_job foreground job)
                      >> find_job (recording client) libs lib cr version jobs))
                (w, log)))
    step true current = ([], job ∷ jobs, log, refl, tt, refl, (current, (jobs, refl), refl))
    step false stale =
        attempt-recorded (λ end. Sweeps cr version (job ∷ jobs) log (end_of end)) (removed_job job)
          (λ e w'. (err e, w')) (λ _. find_job (recording client) libs lib cr version jobs) log
          (client.delete_job foreground job) w
          (λ a w' _.
            Sweeps-cons job jobs log
              (end_of (
                find_job (recording client) libs lib cr version jobs
                  (w', removed_job job (ok a) ∷ log)))
              stale (later w' (removed_job job (ok a) ∷ log)))
          (λ e w' _. ([], job ∷ jobs, log, refl, tt, refl, (job, jobs, refl, stale, refl)))
          (λ w' _. ([], job ∷ jobs, log, refl, tt, refl, (job, jobs, refl, stale, refl)))

  -- The loop deletes the jobs in front of the first current one, all of them stale, and no other; it
  -- answers that job, or none if no job is current. Each deletion but the last ended well. If one
  -- fails, or panics, it is the last event, it is that of the first stale job that is left, and the
  -- answer of the loop is the error, or a panic.
  pub find_job-Sweeps :
      (jobs : List Job) (w : W) (log : List Event)
      → Sweeps cr version jobs log
          (end_of (find_job (recording client) libs lib cr version jobs (w, log)))
  unfolding find_job
  find_job-Sweeps [] w log = ([], [], log, refl, tt, refl, (refl, refl))
  find_job-Sweeps (job ∷ jobs) w log =
      step job jobs w log (find_job-Sweeps jobs) (is_current cr version job) refl
