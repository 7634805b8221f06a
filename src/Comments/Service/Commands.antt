-- ===== src/Comments/Service/Commands.antt =====
-- The methods of src/modules/comments/services/comments.service.ts as steps on the threads.
use manbaa_backend.Base.{
  ℕ, String, ◌≡◌, inl, inr, refl, sym, ap, ◌∙◌, true, not, ◌||◌, none, some, ◌==◌, Bool-cases,
  Option-cases, some_inj,
}
use manbaa_backend.Repository.{find_one}
use manbaa_backend.Session.Types.{RequestUser}
use manbaa_backend.Comments.Types.{CreateCommentDto}
use manbaa_backend.Comments.Service.{
  Env, State, can_user_create_comment, find_workflow, find_workflow_or_throw, comment_of,
  create_comment, update_comment, delete_comment, create_reply, resolve_comment, assign_comment,
}
use manbaa_backend.Comments.Service.Threads.{
  IsThreaded, IsAnchored, ThreadStep, silent, added, edited, ThreadStep-IsThreaded, comment_cases,
}

module _ (env : Env) where
  pub data Command : Type 0 where
    create : String → String → CreateCommentDto → Command
    update : String → String → Command
    delete : String → ℕ → Command
    reply : String → String → String → Command
    resolve : String → String → ℕ → Command
    assign : String → String → Command

  -- The state after the call, whether it returns or throws.
  unfoldable pub execute : Command → RequestUser → State env → State env
  unfolding create_comment update_comment delete_comment create_reply resolve_comment assign_comment
  execute (create uuid workflow_id dto) caller s =
      (create_comment env uuid workflow_id dto caller s).1
  execute (update id content) caller s = (update_comment env id content caller s).1
  execute (delete id now) caller s = (delete_comment env id now caller s).1
  execute (reply uuid id content) caller s = (create_reply env uuid id content caller s).1
  execute (resolve id note now) caller s = (resolve_comment env id note now caller s).1
  execute (assign id assignee_id) caller s = (assign_comment env id assignee_id caller s).1

  -- The id that the database makes is new.
  abbrev pub IsFresh : Command → State env → Type 0
  IsFresh (create uuid workflow_id dto) s = env.comments.get uuid s.comments ≡ none
  IsFresh (reply uuid id content) s = env.comments.get uuid s.comments ≡ none
  IsFresh _ s = Unit

  create-ThreadStep :
      (uuid workflow_id : String) (dto : CreateCommentDto) (caller : RequestUser) (s : State env)
      → env.comments.get uuid s.comments ≡ none
      → ThreadStep env s (create_comment env uuid workflow_id dto caller s).1
  unfolding create_comment find_workflow_or_throw IsAnchored
  create-ThreadStep uuid workflow_id dto caller s new =
      elim (Option-cases (find_workflow env workflow_id caller.org_id s)) [
        | inl foreign ↦ rw foreign (silent refl)
        | inr (w, ours) ↦ elim (Bool-cases (can_user_create_comment caller.role)) [
          | inr other ↦ rw (ours, other) (silent refl)
          | inl writer ↦
              rw (ours, writer)
                (added
                  (comment_of env uuid workflow_id dto.element_id caller.id dto.kind dto.content
                    none)
                  new (λ p h. cc) refl)
        ]
      ]

  reply-ThreadStep :
      (uuid id content : String) (caller : RequestUser) (s : State env)
      → env.comments.get uuid s.comments ≡ none
      → ThreadStep env s (create_reply env uuid id content caller s).1
  unfolding create_reply IsAnchored
  reply-ThreadStep uuid id content caller s new = elim (comment_cases env id caller.org_id s) [
    | inl (e, refused) ↦ rw refused (silent refl)
    | inr (c, w, _, there, _, found) ↦ elim (Bool-cases (can_user_create_comment caller.role)) [
      | inr other ↦ rw (found, other) (silent refl)
      | inl writer ↦
          rw (found, writer)
            (added
              (comment_of env uuid c.workflow_id c.element_id caller.id c.kind content (some c.id))
              new
              (λ p h.
                (c, ap (λ k. env.comments.get k s.comments) (sym (some_inj h)) ∙ there, refl, refl))
              refl)
    ]
  ]

  update-ThreadStep :
      (id content : String) (caller : RequestUser) (s : State env)
      → ThreadStep env s (update_comment env id content caller s).1
  unfolding update_comment
  update-ThreadStep id content caller s = elim (comment_cases env id caller.org_id s) [
    | inl (e, refused) ↦ rw refused (silent refl)
    | inr (c, w, _, there, _, found) ↦
        elim (Bool-cases (c.author_id == caller.id || caller.role == "admin")) [
          | inr other ↦ rw (found, other) (silent refl)
          | inl author ↦
              rw (found, author)
                (edited c (record c { content = content }) there refl refl refl refl)
        ]
  ]

  delete-ThreadStep :
      (id : String) (now : ℕ) (caller : RequestUser) (s : State env)
      → ThreadStep env s (delete_comment env id now caller s).1
  unfolding delete_comment
  delete-ThreadStep id now caller s = elim (comment_cases env id caller.org_id s) [
    | inl (e, refused) ↦ rw refused (silent refl)
    | inr (c, w, _, there, _, found) ↦
        elim (Bool-cases (c.author_id == caller.id || caller.role == "admin")) [
          | inr other ↦ rw (found, other) (silent refl)
          | inl author ↦
              rw (found, author)
                (edited c
                  (record c {
                    resolved = true;
                    resolved_at = some now;
                    resolved_by = some caller.id;
                    resolution_note = some "deleted";
                  })
                  there refl refl refl refl)
        ]
  ]

  resolve-ThreadStep :
      (id note : String) (now : ℕ) (caller : RequestUser) (s : State env)
      → ThreadStep env s (resolve_comment env id note now caller s).1
  unfolding resolve_comment
  resolve-ThreadStep id note now caller s = elim (comment_cases env id caller.org_id s) [
    | inl (e, refused) ↦ rw refused (silent refl)
    | inr (c, w, _, there, _, found) ↦ elim (Bool-cases (not (note == "" || env.trim note == ""))) [
      | inr blank ↦ rw (found, blank) (silent refl)
      | inl filled ↦
          rw (found, filled)
            (edited c
              (record c {
                resolved = true;
                resolved_at = some now;
                resolved_by = some caller.id;
                resolution_note = some note;
              })
              there refl refl refl refl)
    ]
  ]

  assign-ThreadStep :
      (id assignee_id : String) (caller : RequestUser) (s : State env)
      → ThreadStep env s (assign_comment env id assignee_id caller s).1
  unfolding assign_comment
  assign-ThreadStep id assignee_id caller s = elim (comment_cases env id caller.org_id s) [
    | inl (e, refused) ↦ rw refused (silent refl)
    | inr (c, w, _, there, _, found) ↦
        elim (Bool-cases (
          c.author_id == caller.id || (caller.role == "admin" || caller.role == "process_owner"))) [
            | inr other ↦ rw (found, other) (silent refl)
            | inl granted ↦
                elim (Option-cases
                  (find_one env.users assignee_id (λ u. u.org_id == caller.org_id) s.users)) [
                    | inl missing ↦ rw (found, granted, missing) (silent refl)
                    | inr (u, known) ↦
                        rw (found, granted, known)
                          (edited c (record c { assigned_to = some assignee_id }) there refl refl
                            refl refl)
                  ]
          ]
  ]

  execute-ThreadStep :
      (command : Command) (caller : RequestUser) (s : State env)
      → IsFresh command s
      → ThreadStep env s (execute command caller s)
  unfolding execute
  execute-ThreadStep (create uuid workflow_id dto) caller s fresh =
      create-ThreadStep uuid workflow_id dto caller s fresh
  execute-ThreadStep (update id content) caller s fresh = update-ThreadStep id content caller s
  execute-ThreadStep (delete id now) caller s fresh = delete-ThreadStep id now caller s
  execute-ThreadStep (reply uuid id content) caller s fresh =
      reply-ThreadStep uuid id content caller s fresh
  execute-ThreadStep (resolve id note now) caller s fresh = resolve-ThreadStep id note now caller s
  execute-ThreadStep (assign id assignee_id) caller s fresh =
      assign-ThreadStep id assignee_id caller s

  -- What a reply answers is stored, in the workflow and on the element of the reply: every method keeps this so,
  -- whether it returns or throws, if the id that the database makes is new.
  pub execute-IsThreaded :
      (command : Command) (caller : RequestUser) (s : State env)
      → IsFresh command s
      → IsThreaded env s
      → IsThreaded env (execute command caller s)
  execute-IsThreaded command caller s fresh threaded =
      ThreadStep-IsThreaded env s (execute command caller s) threaded
        (execute-ThreadStep command caller s fresh)
