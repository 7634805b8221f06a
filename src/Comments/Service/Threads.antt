-- ===== src/Comments/Service/Threads.antt =====
-- The threads of comments, as steps on the table: src/modules/comments/services/comments.service.ts.
use manbaa_backend.Base.{
  String, ◌≡◌, ◌⊎◌, inl, inr, sym, ap, ◌∙◌, none, some, ◌==◌, arith, eq_iff, Bool-cases,
  Option-cases, subst,
}
use manbaa_backend.Exec.{Failure, ok, err, not_found}
use manbaa_backend.Repository.{Put, save-Put}
use manbaa_backend.Comments.Types.{Comment, Workflow}
use manbaa_backend.Comments.Service.{
  Env, State, find_workflow, find_workflow_or_throw, find_comment_with_workflow,
}

module _ (env : Env) where
  -- What the comment answers is stored, in the same workflow and on the same element.
  unfoldable pub IsAnchored : Comment → State env → Type 0
  IsAnchored c s =
      (p : String)
      → c.parent_id ≡ some p
      → (d : Comment) × (env.comments.get p s.comments ≡ some d)
        × (d.workflow_id ≡ c.workflow_id)
        × (d.element_id ≡ c.element_id)

  -- So for every comment.
  unfoldable pub IsThreaded : State env → Type 0
  unfolding IsAnchored
  IsThreaded s =
      (j : String) (c : Comment) → env.comments.get j s.comments ≡ some c → IsAnchored c s

  -- No comment is written, a new one is written that is anchored, or one is changed where it stands.
  pub data ThreadStep (s t : State env) : Type 0 where
    silent : t.comments ≡ s.comments → ThreadStep s t
    added :
        (c : Comment)
        → env.comments.get c.id s.comments ≡ none
        → IsAnchored c s
        → t.comments ≡ env.comments.save c s.comments
        → ThreadStep s t
    edited :
        (old c : Comment)
        → env.comments.get c.id s.comments ≡ some old
        → c.workflow_id ≡ old.workflow_id
        → c.element_id ≡ old.element_id
        → c.parent_id ≡ old.parent_id
        → t.comments ≡ env.comments.save c s.comments
        → ThreadStep s t

  module _ (s t : State env) (c : Comment) (put : Put env.comments c.id c s.comments t.comments)
      (stays : (old : Comment)
        → env.comments.get c.id s.comments ≡ some old
        → (c.workflow_id ≡ old.workflow_id) × (c.element_id ≡ old.element_id)) where
    -- What was anchored stays so.
    kept-IsAnchored : (x : Comment) → IsAnchored x s → IsAnchored x t
    unfolding IsAnchored
    kept-IsAnchored x anchored p h =
        let (d, there, same, same') = anchored p h in
        elim (Bool-cases (c.id == p)) [
          | inr other ↦ (d, ground (arith, put p), same, same')
          | inl hit ↦
              let here = (eq_iff c.id p).0 hit in
              let (moved, moved') =
                stays d (ap (λ k. env.comments.get k s.comments) here ∙ there) in
              (c, ground (arith, put p), moved ∙ same, moved' ∙ same')
        ]

    Put-IsThreaded : IsThreaded s → IsAnchored c s → IsThreaded t
    unfolding IsThreaded
    Put-IsThreaded threaded anchored j x h = elim (Bool-cases (c.id == j)) [
      | inl hit ↦
          let same : c ≡ x = ground (arith, put j) in
          subst (λ y. IsAnchored y t) same (kept-IsAnchored c anchored)
      | inr other ↦ kept-IsAnchored x (threaded j x (ground (arith, put j)))
    ]

  pub ThreadStep-IsThreaded : (s t : State env) → IsThreaded s → ThreadStep s t → IsThreaded t
  unfolding IsThreaded IsAnchored
  ThreadStep-IsThreaded s t threaded (silent same) = λ j c h p e.
      let (d, there, one, two) = threaded j c (ap (env.comments.get j) (sym same) ∙ h) p e in
      (d, ap (env.comments.get p) same ∙ there, one, two)
  ThreadStep-IsThreaded s t threaded (added c new anchored saved) =
      Put-IsThreaded s t c
        (save-Put env.comments c.id c s.comments t.comments (env.comment_key c) saved)
        (λ old there. absurd (ground (arith, new, there))) threaded anchored
  ThreadStep-IsThreaded s t threaded (edited old c there same same' same_parent saved) =
      Put-IsThreaded s t c
        (save-Put env.comments c.id c s.comments t.comments (env.comment_key c) saved)
        (λ old' there'.
          let e : old ≡ old' = ground (arith, there, there') in
          (
            same ∙ ap (λ (x : Comment). x.workflow_id) e,
            same' ∙ ap (λ (x : Comment). x.element_id) e,
          ))
        threaded
        (λ p h.
          let (d, found, one, two) = threaded c.id old there p (sym same_parent ∙ h) in
          (d, found, one ∙ sym same, two ∙ sym same'))

  pub comment_cases :
      (id org_id : String) (s : State env)
      → ((e : Failure) × (find_comment_with_workflow env id org_id s ≡ (err e, s)))
        ⊎ ((c : Comment) × (w : Workflow) × (env.comments.get id s.comments ≡ some c)
            × (env.comments.get c.id s.comments ≡ some c)
            × (find_workflow env c.workflow_id org_id s ≡ some w)
            × (find_comment_with_workflow env id org_id s ≡ (ok c, s)))
  unfolding find_comment_with_workflow find_workflow_or_throw
  comment_cases id org_id s = elim (Option-cases (env.comments.get id s.comments)) [
    | inl missing ↦ inl (not_found "Comment not found", ground arith)
    | inr (c, there) ↦ elim (Option-cases (find_workflow env c.workflow_id org_id s)) [
      | inl foreign ↦ inl (not_found "Comment not found in organization", ground arith)
      | inr (w, ours) ↦
          let same : c.id ≡ id =
            sym (env.comment_key c) ∙ env.comments.key-get id s.comments c there in
          inr
            (c, w, there, ap (λ k. env.comments.get k s.comments) same ∙ there, ours, ground arith)
    ]
  ]
