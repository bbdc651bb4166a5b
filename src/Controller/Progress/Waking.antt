-- ===== src/Controller/Progress/Waking.antt =====
-- Why there is a second run: the end of a job is an event that starts its import again.
use rhbk_operator.Prelude.{
  ◌≡◌, ◌≢◌, refl, ap, not, ◌&&◌, String, true, false, List, [], ◌∷◌, ◌++◌, All, arith,
}
use rhbk_operator.Prelude.Outcome.{ok}
use rhbk_operator.Kube.Meta.{Key, key_of}
use rhbk_operator.Kube.Objects.{StatefulSet, Job}
use rhbk_operator.Kube.Libs.{Libs, SelectsExactly}
use rhbk_operator.Kube.Client.{Client}
use rhbk_operator.Api.Types.{KeycloakImport}
use rhbk_operator.Resources.Labels.{match_set}
use rhbk_operator.Resources.Status.{is_job_completed}
use rhbk_operator.Realm.ImportJob.{build}
use rhbk_operator.Controller.Watch.{
  created, deleted, updated, wants_job_event, job_concerns, list_requests, handle_job_changed,
}
use rhbk_operator.Controller.Watch.Owners.{HasOwnKey}
use rhbk_operator.Controller.Watch.Requests.{handle_job_changed-build}
use rhbk_operator.Controller.Progress.Completion.{complete}

conditions-build :
    (cr : KeycloakImport) (sts : StatefulSet) (revision : String) {job : Job}
    → build cr sts revision ≡ ok job
    → is_job_completed job ≡ false
unfolding build is_job_completed
conditions-build cr sts revision e = ground arith

-- Where selectors match exactly, "name/namespace" is none of the other label keys, and the import is
-- one of those that the server lists: of a job that was built for the import, the creation and the
-- deletion start nothing; its completion is an event that the controller takes, and it starts that
-- import and no import of another name or namespace.
pub wants_job_event-build :
    {W : Type 0} (client : Client W) (libs : Libs) (w w' : W) (cr : KeycloakImport)
    (before after : List KeycloakImport) (sts : StatefulSet) (revision : String) {job : Job}
    → SelectsExactly libs
    → HasOwnKey cr
    → build cr sts revision ≡ ok job
    → client.list_imports w ≡ (ok (before ++ cr ∷ after), w')
    → (wants_job_event created ≡ false)
      × (wants_job_event deleted ≡ false)
      × (wants_job_event (updated job (complete job)) ≡ true)
      × ((keys : List Key) × (handle_job_changed client libs (complete job) w ≡ (ok keys, w'))
          × All (λ k. k ≡ key_of cr.meta) keys
          × (keys ≢ []))
unfolding wants_job_event is_job_completed handle_job_changed list_requests job_concerns match_set
wants_job_event-build client libs w w' cr before after sts revision {job} exact own e listed = (
  refl,
  refl,
  ap (λ b. not b && true) (conditions-build cr sts revision e),
  handle_job_changed-build client libs w w' cr before after sts revision exact own e listed,
)
