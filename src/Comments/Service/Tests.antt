-- ===== src/Comments/Service/Tests.antt =====
-- A thread on a workflow, and the theorems at concrete inputs.
use manbaa_backend.Base.{◌≡◌, refl, false, Option, none, some, List, [], ◌∷◌, arith}
use manbaa_backend.Exec.{ok, err, not_found}
use manbaa_backend.Json.{end}
use manbaa_backend.Repository.Assoc.{assoc}
use manbaa_backend.Session.Types.{RequestUser}
use manbaa_backend.Comments.Types.{Comment, listed, WorkflowVersion}
use manbaa_backend.Comments.Service.{
  Env, State, Progress, comment_of, find_workflow_or_throw, update_comment, delete_comment,
  create_reply, resolve_comment, assign_comment, get_review_progress, bulk_approve_elements,
}
use manbaa_backend.Comments.Service.Threads.{IsAnchored, IsThreaded}
use manbaa_backend.Comments.Service.Commands.{reply, execute, execute-IsThreaded}
use manbaa_backend.Comments.Service.Approval.{bulk_approve-get_review_progress}
use manbaa_backend.Comments.Service.Refusals.{foreign_comment}

-- There is one workflow, so that the row that was written last is its latest version.
abbrev newest : List WorkflowVersion → Option WorkflowVersion
newest [] = none
newest (v ∷ vs) = some v

abbrev env : Env
env = record {
  comments = assoc (λ c. c.id);
  comment_key = λ c. refl;
  workflows = assoc (λ w. w.id);
  users = assoc (λ u. u.id);
  versions = assoc (λ v. v.id);
  latest = λ workflow_id vs. newest vs;
  trim = λ s. s;
  percent = λ a b. 100;
}

abbrev comment : Comment
comment = comment_of env "c1" "w1" (some "e1") "u1" "question" "Why?" none

abbrev version : WorkflowVersion
version = record {
  id = "v1";
  workflow_id = "w1";
  version_number = 1;
  elements_json = listed (
      record {
        id = "e1";
        archived = false;
        approved = false;
        approved_by = none;
        approved_at = none;
        others = end;
      }
      ∷ []);
}

abbrev start : State env
start = record {
  comments = comment ∷ [];
  workflows = record { id = "w1"; org_id = "o1" } ∷ [];
  users = [];
  versions = version ∷ [];
  effects = [];
}

abbrev owner : RequestUser
owner = record { id = "u2"; org_id = "o1"; role = "process_owner" }

abbrev stranger : RequestUser
stranger = record { id = "u3"; org_id = "o2"; role = "admin" }

start-IsThreaded : IsThreaded env start
unfolding IsThreaded IsAnchored
start-IsThreaded j c h p e = absurd (ground (arith, h, e))

execute-IsThreaded_example : IsThreaded env (execute env (reply "c2" "c1" "Because.") owner start)
execute-IsThreaded_example =
    execute-IsThreaded env (reply "c2" "c1" "Because.") owner start refl start-IsThreaded

foreign_comment_example :
    (update_comment env "c1" "x" stranger start
      ≡ (err (not_found "Comment not found in organization"), start))
    × (delete_comment env "c1" 5 stranger start
        ≡ (err (not_found "Comment not found in organization"), start))
    × (create_reply env "c2" "c1" "x" stranger start
        ≡ (err (not_found "Comment not found in organization"), start))
    × (resolve_comment env "c1" "x" 5 stranger start
        ≡ (err (not_found "Comment not found in organization"), start))
    × (assign_comment env "c1" "x" stranger start
        ≡ (err (not_found "Comment not found in organization"), start))
foreign_comment_example =
    foreign_comment env "c2" "c1" "x" 5 stranger start comment (record { id = "w1"; org_id = "o1" })
      refl refl refl

abbrev approved : State env
approved = (bulk_approve_elements env "w1" none 5 owner start).1

one_approved : bulk_approve_elements env "w1" none 5 owner start ≡ (ok 1, approved)
unfolding bulk_approve_elements find_workflow_or_throw
one_approved = refl

bulk_approve-get_review_progress_example :
    (p : Progress) × (get_review_progress env "w1" "o1" approved ≡ (ok p, approved))
    × (p.approved_count ≡ p.total_count)
bulk_approve-get_review_progress_example =
    bulk_approve-get_review_progress env "w1" 5 1 owner start approved one_approved
      (λ v els h. refl)
