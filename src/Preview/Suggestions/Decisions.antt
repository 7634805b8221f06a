-- ===== src/Preview/Suggestions/Decisions.antt =====
-- What becomes of a suggestion that is stale (canvas-ai-suggestion.service.ts).
use manbaa_backend.Base.{
  ℕ, String, ◌≡◌, refl, ap, sym, ◌∙◌, subst, inl, inr, Bool, true, false, not, ◌&&◌, ◌||◌, none,
  some, List, [], ◌∷◌, ◌==◌, ltb, length, if◌then◌else◌, Has, arith, eq_iff, Bool-cases,
  Option-cases, keep-some, some_inj,
}
use manbaa_backend.Exec.{err, Failure, not_found, conflict}
use manbaa_backend.Repository.{find_one}
use manbaa_backend.Preview.Suggestions.{
  AiSuggestionStatus, CanvasAiSuggestion, CreateSuggestionInput, Env, State, is_ready, is_accepted,
  is_rejected, in_workspace, find_by_id, find_by_task_id, accept, reject, outdate, outdated,
  mark_stale, is_open, create_or_update, updated, suggestion_of,
}

abbrev the_stale : CanvasAiSuggestion → CanvasAiSuggestion
the_stale g = record g { stale_flag = true; status = AiSuggestionStatus.stale }

module _ (env : Env) where
  -- The states that the calls of the service lead to, in any order and number; the id of a new suggestion is
  -- new.
  pub data Later (s : State env) : State env → Type 0 where
    at_once : Later s s
    accepted :
        {t : State env} (id organization_id workspace_id : String) (now : ℕ)
        → Later s t
        → Later s (accept env id organization_id workspace_id now t).1
    rejected :
        {t : State env} (id organization_id workspace_id : String) (now : ℕ)
        → Later s t
        → Later s (reject env id organization_id workspace_id now t).1
    outdated_again :
        {t : State env} (canvas_id snapshot_id : String) (version : ℕ)
        (organization_id workspace_id : String)
        → Later s t
        → Later s (mark_stale env canvas_id snapshot_id version organization_id workspace_id t).1
    stored :
        {t : State env} (id : String) (input : CreateSuggestionInput)
        → env.suggestions.get id t.suggestions ≡ none
        → Later s t
        → Later s (create_or_update env id input t).1

  accept_stale :
      (id organization_id workspace_id : String) (now : ℕ) (g : CanvasAiSuggestion) (s : State env)
      → env.suggestions.get id s.suggestions ≡ some g
      → g.stale_flag ≡ true
      → (e : Failure) × (accept env id organization_id workspace_id now s ≡ (err e, s))
  unfolding accept find_by_id
  accept_stale id organization_id workspace_id now g s found old =
      elim (Bool-cases (in_workspace env organization_id workspace_id g)) [
        | inr foreign ↦ (not_found "Suggestion not found", rw found (rw foreign refl))
        | inl ours ↦ (conflict "Cannot accept a stale suggestion", rw (found, ours, old) refl)
      ]

  reject_stale :
      (id organization_id workspace_id : String) (now : ℕ) (g : CanvasAiSuggestion) (s : State env)
      → env.suggestions.get id s.suggestions ≡ some g
      → g.stale_flag ≡ true
      → (e : Failure) × (reject env id organization_id workspace_id now s ≡ (err e, s))
  unfolding reject find_by_id
  reject_stale id organization_id workspace_id now g s found old =
      elim (Bool-cases (in_workspace env organization_id workspace_id g)) [
        | inr foreign ↦ (not_found "Suggestion not found", rw found (rw foreign refl))
        | inl ours ↦ (conflict "Cannot reject a stale suggestion", rw (found, ours, old) refl)
      ]

  -- What is stored under an id is marked stale.
  abbrev IsStale : String → env.suggestions.Store → Type 0
  IsStale j s =
      (g : CanvasAiSuggestion) × (env.suggestions.get j s ≡ some g) × (g.stale_flag ≡ true)

  get-save :
      (r : CanvasAiSuggestion) (j : String) (s : env.suggestions.Store)
      → env.suggestions.get j (env.suggestions.save r s)
        ≡ (if r.id == j then some r else env.suggestions.get j s)
  get-save r j s =
      subst
        (λ i.
          env.suggestions.get j (env.suggestions.save r s)
          ≡ (if i == j then some r else env.suggestions.get j s))
        (env.suggestion_key r) (env.suggestions.get-save r s j)

  -- A row that is written over a stale one has to be stale too.
  save-IsStale :
      (r : CanvasAiSuggestion) (j : String) (s : env.suggestions.Store)
      → IsStale j s
      → (r.id ≡ j → r.stale_flag ≡ true)
      → IsStale j (env.suggestions.save r s)
  save-IsStale r j s (g, found, old) same = elim (Bool-cases (r.id == j)) [
    | inl hit ↦ (r, get-save r j s ∙ rw hit refl, same ((eq_iff r.id j).0 hit))
    | inr miss ↦ (g, get-save r j s ∙ rw miss found, old)
  ]

  -- A stale row is not the one that is found with a flag that is not set.
  not_current :
      (g : CanvasAiSuggestion) (j : String) (s : env.suggestions.Store)
      → IsStale j s
      → env.suggestions.get g.id s ≡ some g
      → g.id ≡ j
      → g.stale_flag ≡ true
  not_current g j s (x, found, old) there same =
      let at_j : env.suggestions.get j s ≡ some g =
        subst (λ k. env.suggestions.get k s ≡ some g) same there in
      subst (λ (y : CanvasAiSuggestion). y.stale_flag ≡ true) (some_inj (sym found ∙ at_j)) old

  own_id :
      (id : String) (g : CanvasAiSuggestion) (s : env.suggestions.Store)
      → env.suggestions.get id s ≡ some g
      → env.suggestions.get g.id s ≡ some g
  own_id id g s there =
      subst (λ k. env.suggestions.get k s ≡ some g)
        (sym (sym (env.suggestion_key g) ∙ env.suggestions.key-get id s g there)) there

  outdate-IsStale :
      (rows : List CanvasAiSuggestion) (j : String) (s : env.suggestions.Store)
      → IsStale j s
      → IsStale j (outdate env rows s)
  outdate-IsStale [] j s c = c
  outdate-IsStale (r ∷ rows) j s c =
      outdate-IsStale rows j (env.suggestions.save (the_stale r) s)
        (save-IsStale (the_stale r) j s c (λ same. refl))

  outdate_hit :
      (rows : List CanvasAiSuggestion) (r : CanvasAiSuggestion) (s : env.suggestions.Store)
      → Has r rows
      → IsStale r.id (outdate env rows s)
  outdate_hit [] r s there = absurd there
  outdate_hit (x ∷ rows) r s (inl same) =
      let here : (x.id == r.id) ≡ true =
        (eq_iff x.id r.id).1 (ap (λ (y : CanvasAiSuggestion). y.id) same) in
      outdate-IsStale rows r.id (env.suggestions.save (the_stale x) s)
        (the_stale x, get-save (the_stale x) r.id s ∙ rw here refl, refl)
  outdate_hit (x ∷ rows) r s (inr there) =
      outdate_hit rows r (env.suggestions.save (the_stale x) s) there

  marked :
      (canvas_id snapshot_id organization_id workspace_id : String) (version : ℕ) (s : State env)
      → (mark_stale env canvas_id snapshot_id version organization_id workspace_id s).1.suggestions
        ≡ outdate env
            (env.listing.select (outdated env canvas_id organization_id workspace_id) s.suggestions)
            s.suggestions
  unfolding mark_stale
  marked canvas_id snapshot_id organization_id workspace_id version s =
      elim (Bool-cases (
        ltb 0 (
          length (
            env.listing.select (outdated env canvas_id organization_id workspace_id)
              s.suggestions)))) [ inl some_row ↦ rw some_row refl | inr no_row ↦ rw no_row refl ]

  accept-IsStale :
      (id o w : String) (now : ℕ) (j : String) (s : State env)
      → IsStale j s.suggestions
      → IsStale j (accept env id o w now s).1.suggestions
  unfolding accept find_by_id
  accept-IsStale id o w now j s c =
      elim (Option-cases (find_one env.suggestions id (in_workspace env o w) s.suggestions)) [
        | inl missing ↦ rw missing c
        | inr (g, found) ↦ elim (Bool-cases g.stale_flag) [
          | inl old ↦ rw (found, old) c
          | inr current ↦ elim (Bool-cases (is_accepted g.status)) [
            | inl again ↦ rw (found, current, again) c
            | inr other ↦ elim (Bool-cases (is_ready g.status)) [
              | inr shut ↦ rw (found, current, other, shut) c
              | inl ready ↦
                  let there : env.suggestions.get id s.suggestions ≡ some g =
                    (keep-some (in_workspace env o w) _ g found).0 in
                  rw (found, current, other, ready)
                    (save-IsStale
                      (record g {
                        stale_flag = false;
                        status = AiSuggestionStatus.accepted;
                        accepted_at = some now;
                      })
                      j s.suggestions c
                      (λ same. absurd (
                        ground (
                          arith,
                          current,
                          not_current g j s.suggestions c (own_id id g s.suggestions there) same,
                        ))))
            ]
          ]
        ]
      ]

  reject-IsStale :
      (id o w : String) (now : ℕ) (j : String) (s : State env)
      → IsStale j s.suggestions
      → IsStale j (reject env id o w now s).1.suggestions
  unfolding reject find_by_id
  reject-IsStale id o w now j s c =
      elim (Option-cases (find_one env.suggestions id (in_workspace env o w) s.suggestions)) [
        | inl missing ↦ rw missing c
        | inr (g, found) ↦ elim (Bool-cases g.stale_flag) [
          | inl old ↦ rw (found, old) c
          | inr current ↦ elim (Bool-cases (is_rejected g.status)) [
            | inl again ↦ rw (found, current, again) c
            | inr other ↦ elim (Bool-cases (is_ready g.status)) [
              | inr shut ↦ rw (found, current, other, shut) c
              | inl ready ↦
                  let there : env.suggestions.get id s.suggestions ≡ some g =
                    (keep-some (in_workspace env o w) _ g found).0 in
                  rw (found, current, other, ready)
                    (save-IsStale
                      (record g {
                        stale_flag = false;
                        status = AiSuggestionStatus.rejected;
                        rejected_at = some now;
                      })
                      j s.suggestions c
                      (λ same. absurd (
                        ground (
                          arith,
                          current,
                          not_current g j s.suggestions c (own_id id g s.suggestions there) same,
                        ))))
            ]
          ]
        ]
      ]

  create-IsStale :
      (id : String) (input : CreateSuggestionInput) (j : String) (s : State env)
      → env.suggestions.get id s.suggestions ≡ none
      → IsStale j s.suggestions
      → IsStale j (create_or_update env id input s).1.suggestions
  unfolding create_or_update find_by_task_id
  create-IsStale id input j s new (x, there, old) =
      let asked : CanvasAiSuggestion → Bool = λ g.
        g.task_id == input.task_id && in_workspace env input.organization_id input.workspace_id g in
      elim (Option-cases (env.suggestions.find_where asked s.suggestions)) [
        | inl none_found ↦ rw none_found (
            save-IsStale (suggestion_of env id input) j s.suggestions (x, there, old)
              (λ same. absurd (ground (arith, same, there, new))))
        | inr (g, found) ↦
            let (_, keyed) = env.suggestions.find_where_sound asked s.suggestions g found in
            rw found (
              save-IsStale (updated env input g) j s.suggestions (x, there, old)
                (not_current g j s.suggestions (x, there, old)
                  (subst (λ k. env.suggestions.get k s.suggestions ≡ some g) (env.suggestion_key g)
                    keyed)))
      ]

  Later-IsStale :
      (j : String) (s t : State env) → IsStale j s.suggestions → Later s t → IsStale j t.suggestions
  Later-IsStale j s _ c at_once = c
  Later-IsStale j s _ c (accepted {t} id o w now before) =
      accept-IsStale id o w now j t (Later-IsStale j s t c before)
  Later-IsStale j s _ c (rejected {t} id o w now before) =
      reject-IsStale id o w now j t (Later-IsStale j s t c before)
  Later-IsStale j s _ c (outdated_again {t} canvas_id snapshot_id version o w before) =
      subst (IsStale j) (sym (marked canvas_id snapshot_id o w version t)) (
        outdate-IsStale (env.listing.select (outdated env canvas_id o w) t.suggestions) j
          t.suggestions (Later-IsStale j s t c before))
  Later-IsStale j s _ c (stored {t} id input new before) =
      create-IsStale id input j t new (Later-IsStale j s t c before)

  fitting :
      (g : CanvasAiSuggestion) (a b : Bool)
      → a ≡ true
      → b ≡ true
      → g.stale_flag ≡ false
      → (g.stale_flag || is_open g.status) ≡ true
      → (a && (b && (not g.stale_flag && is_open g.status))) ≡ true
  fitting g a b h h' e open_now = rw (h, h', e) (rw e at open_now)

  mark_stale-IsStale :
      (canvas_id snapshot_id organization_id workspace_id : String) (version : ℕ)
      (g : CanvasAiSuggestion) (s : State env)
      → env.suggestions.get g.id s.suggestions ≡ some g
      → g.canvas_id ≡ canvas_id
      → in_workspace env organization_id workspace_id g ≡ true
      → (g.stale_flag || is_open g.status) ≡ true
      → IsStale g.id
          (mark_stale env canvas_id snapshot_id version organization_id workspace_id
            s).1.suggestions
  mark_stale-IsStale canvas_id snapshot_id o w version g s found here ours undecided =
      let fits = outdated env canvas_id o w in
      let rows = env.listing.select fits s.suggestions in
      let after : IsStale g.id (outdate env rows s.suggestions) = elim (Bool-cases g.stale_flag) [
        | inl old ↦ outdate-IsStale rows g.id s.suggestions (g, found, old)
        | inr current ↦
            let fit : fits g ≡ true =
              fitting g (g.canvas_id == canvas_id) (in_workspace env o w g)
                ((eq_iff g.canvas_id canvas_id).1 here) ours current undecided in
            outdate_hit rows g s.suggestions
              (env.listing.select_complete fits s.suggestions g.id g found fit)
      ] in
      subst (IsStale g.id) (sym (marked canvas_id snapshot_id o w version s)) after

  -- A suggestion that was queued, being processed, ready or stale already when `markStale` was called for its
  -- canvas, workspace and organisation is never accepted or rejected after that, by any caller, whatever calls
  -- of the service come in between, as long as the ids that the database makes are new.
  pub mark_stale_lem :
      (canvas_id snapshot_id organization_id workspace_id : String) (version now : ℕ) (o w : String)
      (g : CanvasAiSuggestion) (s t : State env)
      → env.suggestions.get g.id s.suggestions ≡ some g
      → g.canvas_id ≡ canvas_id
      → in_workspace env organization_id workspace_id g ≡ true
      → (g.stale_flag || is_open g.status) ≡ true
      → Later (mark_stale env canvas_id snapshot_id version organization_id workspace_id s).1 t
      → ((e : Failure) × (accept env g.id o w now t ≡ (err e, t)))
        × ((e : Failure) × (reject env g.id o w now t ≡ (err e, t)))
  mark_stale_lem canvas_id snapshot_id organization_id workspace_id version now o w g s t found here
        ours undecided later =
      let first =
        mark_stale-IsStale canvas_id snapshot_id organization_id workspace_id version g s found here
          ours undecided in
      let (g', found', old) = Later-IsStale g.id _ t first later in
      (accept_stale g.id o w now g' t found' old, reject_stale g.id o w now g' t found' old)
