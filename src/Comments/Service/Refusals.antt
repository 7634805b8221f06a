-- ===== src/Comments/Service/Refusals.antt =====
-- What the methods on a comment refuse: src/modules/comments/services/comments.service.ts.
use manbaa_backend.Base.{ℕ, String, ◌≡◌, inl, inr, refl, false, some, ◌==◌, arith}
use manbaa_backend.Exec.{Failure, err, not_found, forbidden}
use manbaa_backend.Session.Types.{RequestUser}
use manbaa_backend.Comments.Types.{Workflow, Comment}
use manbaa_backend.Comments.Service.{
  Env, State, find_workflow_or_throw, find_comment_with_workflow, update_comment, delete_comment,
  create_reply, resolve_comment, assign_comment,
}
use manbaa_backend.Comments.Service.Threads.{comment_cases}

module _ (env : Env) where
  foreign_find :
      (id : String) (caller : RequestUser) (s : State env) (c : Comment) (w : Workflow)
      → env.comments.get id s.comments ≡ some c
      → env.workflows.get c.workflow_id s.workflows ≡ some w
      → (w.org_id == caller.org_id) ≡ false
      → find_comment_with_workflow env id caller.org_id s
        ≡ (err (not_found "Comment not found in organization"), s)
  unfolding find_comment_with_workflow find_workflow_or_throw
  foreign_find id caller s c w there workflow foreign = ground arith

  -- A comment on a workflow of another organisation than the caller's is neither edited, deleted, answered,
  -- resolved nor assigned: each of the five methods answers that it is not found in the organisation, and
  -- leaves everything as it was.
  pub foreign_comment :
      (uuid id text : String) (now : ℕ) (caller : RequestUser) (s : State env) (c : Comment)
      (w : Workflow)
      → env.comments.get id s.comments ≡ some c
      → env.workflows.get c.workflow_id s.workflows ≡ some w
      → (w.org_id == caller.org_id) ≡ false
      → (update_comment env id text caller s
          ≡ (err (not_found "Comment not found in organization"), s))
        × (delete_comment env id now caller s
            ≡ (err (not_found "Comment not found in organization"), s))
        × (create_reply env uuid id text caller s
            ≡ (err (not_found "Comment not found in organization"), s))
        × (resolve_comment env id text now caller s
            ≡ (err (not_found "Comment not found in organization"), s))
        × (assign_comment env id text caller s
            ≡ (err (not_found "Comment not found in organization"), s))
  unfolding update_comment delete_comment create_reply resolve_comment assign_comment
  foreign_comment uuid id text now caller s c w there workflow foreign =
      let refused = foreign_find id caller s c w there workflow foreign in
      (rw refused refl, rw refused refl, rw refused refl, rw refused refl, rw refused refl)

  -- Who did not write a comment and is no admin neither edits nor deletes it: both methods throw and leave
  -- everything as it was.
  pub other_author :
      (id text : String) (now : ℕ) (caller : RequestUser) (s : State env) (c : Comment)
      → env.comments.get id s.comments ≡ some c
      → (c.author_id == caller.id) ≡ false
      → (caller.role == "admin") ≡ false
      → ((e : Failure) × (update_comment env id text caller s ≡ (err e, s)))
        × ((e : Failure) × (delete_comment env id now caller s ≡ (err e, s)))
  unfolding update_comment delete_comment
  other_author id text now caller s c there other no_admin =
      elim (comment_cases env id caller.org_id s) [
        | inl (e, refused) ↦ ((e, rw refused refl), (e, rw refused refl))
        | inr (c', w, there', _, _, found) ↦
            let same : c' ≡ c = ground (arith, there, there') in
            let apart : (c'.author_id == caller.id) ≡ false = rw same other in
            (
              (forbidden "Only comment author or admin can edit", rw (found, apart, no_admin) refl),
              (
                forbidden "Only comment author or admin can delete",
                rw (found, apart, no_admin) refl,
              ),
            )
      ]
