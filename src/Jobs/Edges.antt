-- ===== src/Jobs/Edges.antt =====
-- The status diagram of the reports of src/modules/jobs/ai-task-events.service.ts.
use manbaa_backend.Base.{◌≤◌, ◌≡◌, refl, Bool, true, false, max, min, arith}
use manbaa_backend.Jobs.Types.{
  JobStatus, queued, running, waiting_for_user, superseded, is_final, is_queued, is_superseded,
  AiTask,
}

-- The status diagram of the reports.
pub data Edge : JobStatus → JobStatus → Type 0 where
  starts : Edge queued running
  completes :
      {a : JobStatus} → is_final a ≡ false → is_superseded a ≡ false → Edge a JobStatus.completed
  fails : {a : JobStatus} → is_final a ≡ false → is_superseded a ≡ false → Edge a JobStatus.failed
  cancels : {a : JobStatus} → is_final a ≡ false → Edge a JobStatus.cancelled
  outlives : Edge superseded JobStatus.stale

-- A path through the diagram.
pub data Reach : JobStatus → JobStatus → Type 0 where
  here : {a : JobStatus} → Reach a a
  via : {a b c : JobStatus} → Edge a b → Reach b c → Reach a c

-- What a row may become: whose it is stays, its status follows the diagram, its progress does not
-- fall below what it was, up to 100, nor rise above 100 if it was not there.
pub record Moved (t t' : AiTask) : Type 0 where
  pub id : t'.id ≡ t.id
  pub organization : t'.organization_id ≡ t.organization_id
  pub workspace : t'.workspace_id ≡ t.workspace_id
  pub user : t'.user_id ≡ t.user_id
  pub reservation : t'.usage_reservation_id ≡ t.usage_reservation_id
  pub reach : Reach t.status t'.status
  pub climbs : min t.progress 100 ≤ t'.progress
  pub bounded : t'.progress ≤ max t.progress 100

-- The work on the task is over, whatever the worker does.
abbrev pub is_over : JobStatus → Bool
is_over superseded = true
is_over status = is_final status

pub queued_runs : (a : JobStatus) → is_queued a ≡ true → Reach a running
queued_runs queued q = via starts here
queued_runs running q = cc
queued_runs waiting_for_user q = cc
queued_runs JobStatus.completed q = cc
queued_runs JobStatus.failed q = cc
queued_runs JobStatus.cancelled q = cc
queued_runs superseded q = cc
queued_runs JobStatus.stale q = cc

pub queued_over : (a : JobStatus) → is_queued a ≡ true → is_over running ≡ is_over a
queued_over a q = ground (arith, q)

pub over_final :
    (a : JobStatus) → is_over a ≡ false → (is_final a ≡ false) × (is_superseded a ≡ false)
over_final a h = ground (arith, h)

pub superseded_stale :
    (a : JobStatus) → is_superseded a ≡ true → Reach a JobStatus.stale × (true ≡ is_over a)
superseded_stale superseded h = (via outlives here, refl)
superseded_stale queued h = cc
superseded_stale running h = cc
superseded_stale waiting_for_user h = cc
superseded_stale JobStatus.completed h = cc
superseded_stale JobStatus.failed h = cc
superseded_stale JobStatus.cancelled h = cc
superseded_stale JobStatus.stale h = cc
