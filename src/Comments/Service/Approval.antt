-- ===== src/Comments/Service/Approval.antt =====
-- What a bulk approval does to the review progress: src/modules/comments/services/comments.service.ts.
use manbaa_backend.Base.{
  ℕ, String, ◌≡◌, inl, inr, refl, ap, ◌∙◌, Bool, true, false, not, ◌||◌, Option, none, some, List,
  [], ◌∷◌, ◌==◌, arith, eq_refl, Bool-cases, Option-cases, keep, if◌then◌else◌, Has, All, select,
  length,
}
use manbaa_backend.Exec.{ok, Result-cases}
use manbaa_backend.Session.Types.{RequestUser}
use manbaa_backend.Comments.Types.{Workflow, WorkflowVersion, Element, listed}
use manbaa_backend.Comments.Service.{
  Env, State, approve, elements_of, targets, includes, approve_all, Progress, progress_over,
  find_workflow, find_workflow_or_throw, get_review_progress, bulk_approve_elements,
}

abbrev IsApproved : Element → Type 0
IsApproved el = el.approved ≡ true

-- An element that is not approved is a target, if no ids are given.
unapproved-targets :
    (els : List Element) (el : Element)
    → Has el els
    → el.approved ≡ false
    → includes (targets none els) el.id ≡ true
unapproved-targets [] el h still_open = absurd h
unapproved-targets (x ∷ els) el (inl same) still_open =
    let left : x.approved ≡ false = rw same still_open in
    let one : (x.id == el.id) ≡ true = rw same (eq_refl el.id) in ground (arith, left, one)
unapproved-targets (x ∷ els) el (inr h) still_open = elim (Bool-cases x.approved) [
  | inl done ↦ ground (arith, unapproved-targets els el h still_open)
  | inr left ↦ ground (arith, unapproved-targets els el h still_open)
]

approve_all-IsApproved :
    (ids : List String) (user_id : String) (now : ℕ) (els : List Element)
    → ((el : Element) → Has el els → el.approved ≡ false → includes ids el.id ≡ true)
    → All IsApproved (approve_all ids user_id now els)
approve_all-IsApproved ids user_id now [] h = tt
approve_all-IsApproved ids user_id now (x ∷ els) h =
    (first, approve_all-IsApproved ids user_id now els (λ el there. h el (inr there)))
  where
    first : (if includes ids x.id then approve user_id now x else x).approved ≡ true
    first = elim (Bool-cases (includes ids x.id)) [
      | inl hit ↦ rw hit refl
      | inr other ↦ elim (Bool-cases x.approved) [
        | inl done ↦ rw other done
        | inr left ↦ absurd (ground (arith, h x (inl refl) left, other))
      ]
    ]

All-select :
    (q : Element → Bool) (els : List Element) → All IsApproved els → All IsApproved (select q els)
All-select q [] h = tt
All-select q (x ∷ els) h = elim (Bool-cases (q x)) [
  | inl kept ↦ rw kept (h.0, All-select q els h.1)
  | inr dropped ↦ rw dropped (All-select q els h.1)
]

length-select :
    (els : List Element)
    → All IsApproved els
    → length (select (λ (el : Element). el.approved) els) ≡ length els
length-select [] h = refl
length-select (x ∷ els) h = ground (arith, h.0, length-select els h.1)

module _ (env : Env) where
  bulk_cases :
      (workflow_id : String) (ids : Option (List String)) (now n : ℕ) (caller : RequestUser)
      (s t : State env)
      → bulk_approve_elements env workflow_id ids now caller s ≡ (ok n, t)
      → (w : Workflow) × (v : WorkflowVersion) × (els : List Element) × (find_workflow env
            workflow_id caller.org_id s
          ≡ some w)
        × (env.latest workflow_id s.versions ≡ some v)
        × (t.workflows ≡ s.workflows)
        × (t.versions
            ≡ env.versions.save
                (record v {
                  elements_json = listed (approve_all (targets ids els) caller.id now els);
                })
                s.versions)
  unfolding bulk_approve_elements find_workflow_or_throw
  bulk_cases workflow_id ids now n caller s t h =
      elim (Option-cases (find_workflow env workflow_id caller.org_id s)) [
        | inl missing ↦ absurd (ground (arith, h))
        | inr (w, there) ↦
            elim (Bool-cases (caller.role == "admin" || caller.role == "process_owner")) [
              | inr refused ↦ absurd (ground (arith, h))
              | inl granted ↦ elim (Option-cases (env.latest workflow_id s.versions)) [
                | inl missing ↦ absurd (ground (arith, h))
                | inr (v, last) ↦ elim (Result-cases (elements_of v.elements_json)) [
                  | inr (e, failed) ↦ absurd (ground (arith, h))
                  | inl (els, read) ↦ (w, v, els, there, last, ground (arith, h), ground (arith, h))
                ]
              ]
            ]
      ]

  progress_of :
      (workflow_id org_id : String) (t : State env) (w : Workflow) (v : WorkflowVersion)
      (els : List Element)
      → find_workflow env workflow_id org_id t ≡ some w
      → env.latest workflow_id t.versions ≡ some (record v { elements_json = listed els })
      → All IsApproved els
      → (p : Progress) × (get_review_progress env workflow_id org_id t ≡ (ok p, t))
        × (p.approved_count ≡ p.total_count)
  unfolding get_review_progress find_workflow_or_throw
  progress_of workflow_id org_id t w v els there last approved =
      let same =
        length-select (select (λ (el : Element). not el.archived) els)
          (All-select (λ el. not el.archived) els approved) in
      (progress_over env els, rw (there, last) refl, same)

  -- After a bulk approval that names no elements the review is complete: as many elements are approved as there
  -- are that count. The version that was read must stay the latest when its elements are written.
  pub bulk_approve-get_review_progress :
      (workflow_id : String) (now n : ℕ) (caller : RequestUser) (s t : State env)
      → bulk_approve_elements env workflow_id none now caller s ≡ (ok n, t)
      → ((v : WorkflowVersion) (els : List Element)
          → env.latest workflow_id s.versions ≡ some v
          → env.latest workflow_id
              (env.versions.save (record v { elements_json = listed els }) s.versions)
            ≡ some (record v { elements_json = listed els }))
      → (p : Progress) × (get_review_progress env workflow_id caller.org_id t ≡ (ok p, t))
        × (p.approved_count ≡ p.total_count)
  bulk_approve-get_review_progress workflow_id now n caller s t h stays =
      let (w, v, els, there, last, same_w, written) =
        bulk_cases workflow_id none now n caller s t h in
      let all = approve_all (targets none els) caller.id now els in
      progress_of workflow_id caller.org_id t w v all
        (ap
            (λ x.
              keep (λ (y : Workflow). y.org_id == caller.org_id) (env.workflows.get workflow_id x))
            same_w
          ∙ there)
        (ap (env.latest workflow_id) written ∙ stays v all last)
        (approve_all-IsApproved (targets none els) caller.id now els (unapproved-targets els))
