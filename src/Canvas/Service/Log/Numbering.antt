-- ===== src/Canvas/Service/Log/Numbering.antt =====
-- A step of the log keeps the numbers of the operations in order.
use manbaa_backend.Base.{
  ℕ, suc, ◌≤◌, String, ◌≡◌, sym, ap, ◌∙◌, inl, inr, none, some, arith, eq_iff, eq_refl, Bool-cases,
  ◌==◌, subst, eqb,
}
use manbaa_backend.Repository.{Put, save-Put}
use manbaa_backend.Canvas.Types.{Canvas, CanvasOperation}
use manbaa_backend.Canvas.Service.{Env, State}
use manbaa_backend.Canvas.Service.Log.{
  LogStep, silent, opened, appended, LogRun, still, more, Placed, IsLog,
}

module _ (env : Env) (s t : State env) (log : IsLog env s) where
  open env use {canvases, operations}

  silent-IsLog : t.canvases ≡ s.canvases → t.operations ≡ s.operations → IsLog env t
  silent-IsLog same same' = record {
    placed = λ j op h.
        let p = log.placed j op (ap (operations.get j) (sym same') ∙ h) in
        record {
          canvas = p.canvas;
          found = ap (canvases.get op.canvas_id) same ∙ p.found;
          positive = p.positive;
          reached = p.reached;
        };
    distinct = λ i j a b ha hb.
        log.distinct i j a b (ap (operations.get i) (sym same') ∙ ha)
          (ap (operations.get j) (sym same') ∙ hb);
    dense = λ k c n h lo hi.
        let (j, op, there, of_k, number) =
          log.dense k c n (ap (canvases.get k) (sym same) ∙ h) lo hi in
        (j, op, ap (operations.get j) same' ∙ there, of_k, number);
  }

  module _ (c : Canvas) (new : canvases.get c.id s.canvases ≡ none) (empty : c.revision ≡ 0)
      (saved : Put canvases c.id c s.canvases t.canvases) (same : t.operations ≡ s.operations) where
    opened-IsLog : IsLog env t
    opened-IsLog = record {
      placed = λ j op h.
          let p = log.placed j op (ap (operations.get j) (sym same) ∙ h) in
          let found = p.found in
          record {
            canvas = p.canvas;
            found = ground (arith, saved op.canvas_id, eq_iff c.id op.canvas_id);
            positive = p.positive;
            reached = p.reached;
          };
      distinct = λ i j a b ha hb.
          log.distinct i j a b (ap (operations.get i) (sym same) ∙ ha)
            (ap (operations.get j) (sym same) ∙ hb);
      dense = λ k c' n h lo hi. elim (Bool-cases (c.id == k)) [
        | inl hit ↦ absurd (ground (arith, saved k))
        | inr other ↦
            let (j, op, there, of_k, number) = log.dense k c' n (ground (arith, saved k)) lo hi in
            (j, op, ap (operations.get j) same ∙ there, of_k, number)
      ];
    }

  module _ (c : Canvas) (op : CanvasOperation) (there : canvases.get c.id s.canvases ≡ some c)
      (new : operations.get op.id s.operations ≡ none) (of_c : op.canvas_id ≡ c.id)
      (next : op.sequence_number ≡ suc c.revision)
      (saved : Put canvases c.id (record c { revision = suc c.revision }) s.canvases t.canvases)
      (logged : Put operations op.id op s.operations t.operations) where
    c' : Canvas
    c' = record c { revision = suc c.revision }

    grown :
        (k : String) (a : Canvas) (n : ℕ)
        → canvases.get k s.canvases ≡ some a
        → n ≤ a.revision
        → (b : Canvas) × (canvases.get k t.canvases ≡ some b) × (n ≤ b.revision)
    unfolding c'
    grown k a n h le = elim (Bool-cases (c.id == k)) [
      | inl hit ↦
          let same : a ≡ c = ground (arith, eq_iff c.id k) in
          (c', ground (arith, saved k), ground arith)
      | inr other ↦ (a, ground (arith, saved k), le)
    ]

    here : canvases.get op.canvas_id t.canvases ≡ some c'
    unfolding c'
    here = ap (λ k. canvases.get k t.canvases) of_c ∙ (saved c.id ∙ ground (arith, eq_refl c.id))

    appended-Placed :
        (j : String) (a : CanvasOperation) → operations.get j t.operations ≡ some a → Placed env t a
    unfolding c'
    appended-Placed j a h = elim (Bool-cases (op.id == j)) [
      | inl hit ↦
          let same : op ≡ a = ground (arith, logged j) in
          subst (Placed env t) same (record {
            canvas = c';
            found = here;
            positive = omega (arith, next);
            reached = omega (arith, next);
          })
      | inr other ↦
          let p = log.placed j a (ground (arith, logged j)) in
          let (b, found, le) = grown a.canvas_id p.canvas a.sequence_number p.found p.reached in
          record { canvas = b; found = found; positive = p.positive; reached = le }
    ]

    -- No operation of the old log has the new number.
    clash :
        (j : String) (a : CanvasOperation)
        → operations.get j s.operations ≡ some a
        → op.canvas_id ≡ a.canvas_id
        → op.sequence_number ≡ a.sequence_number
        → ⊥
    clash j a h same equal =
        let p = log.placed j a h in
        let found = p.found in
        let reached = p.reached in
        let at_c : canvases.get c.id s.canvases ≡ some p.canvas =
          ap (λ k. canvases.get k s.canvases) (sym of_c ∙ same) ∙ found in
        ground arith

    appended-distinct :
        (i j : String) (a b : CanvasOperation)
        → operations.get i t.operations ≡ some a
        → operations.get j t.operations ≡ some b
        → a.canvas_id ≡ b.canvas_id
        → a.sequence_number ≡ b.sequence_number
        → i ≡ j
    appended-distinct i j a b ha hb same equal = elim (Bool-cases (op.id == i)) [
      | inl hit ↦ elim (Bool-cases (op.id == j)) [
        | inl hit' ↦ sym ((eq_iff op.id i).0 hit) ∙ (eq_iff op.id j).0 hit'
        | inr other ↦
            let e : op ≡ a = ground (arith, logged i) in
            absurd (
              clash j b (ground (arith, logged j))
                (ap (λ (x : CanvasOperation). x.canvas_id) e ∙ same)
                (ap (λ (x : CanvasOperation). x.sequence_number) e ∙ equal))
      ]
      | inr other ↦ elim (Bool-cases (op.id == j)) [
        | inl hit' ↦
            let e : op ≡ b = ground (arith, logged j) in
            absurd (
              clash i a (ground (arith, logged i))
                (ap (λ (x : CanvasOperation). x.canvas_id) e ∙ sym same)
                (ap (λ (x : CanvasOperation). x.sequence_number) e ∙ sym equal))
        | inr other' ↦
            log.distinct i j a b (ground (arith, logged i)) (ground (arith, logged j)) same equal
      ]
    ]

    kept :
        (k : String) (b : Canvas) (n : ℕ)
        → canvases.get k s.canvases ≡ some b
        → 1 ≤ n
        → n ≤ b.revision
        → (j : String) × (x : CanvasOperation) × (operations.get j t.operations ≡ some x)
          × (x.canvas_id ≡ k)
          × (x.sequence_number ≡ n)
    kept k b n h lo hi =
        let (j, x, found, of_k, number) = log.dense k b n h lo hi in
        (j, x, ground (arith, logged j, eq_iff op.id j), of_k, number)

    appended-dense :
        (k : String) (a : Canvas) (n : ℕ)
        → canvases.get k t.canvases ≡ some a
        → 1 ≤ n
        → n ≤ a.revision
        → (j : String) × (x : CanvasOperation) × (operations.get j t.operations ≡ some x)
          × (x.canvas_id ≡ k)
          × (x.sequence_number ≡ n)
    appended-dense k a n h lo hi = elim (Bool-cases (c.id == k)) [
      | inr other ↦ kept k a n (ground (arith, saved k)) lo hi
      | inl hit ↦
          let grown_c : record c { revision = suc c.revision } ≡ a = ground (arith, saved k) in
          let here_k = (eq_iff c.id k).0 hit in
          elim (Bool-cases (eqb n (suc c.revision))) [
            | inl last ↦ (
              op.id,
              op,
              ground (arith, logged op.id, eq_refl op.id),
              of_c ∙ here_k,
              ground arith,
            )
            | inr before ↦
                kept k c n (ap (λ i. canvases.get i s.canvases) (sym here_k) ∙ there) lo
                  (ground arith)
          ]
    ]

  pub LogStep-IsLog : LogStep env s t → IsLog env t
  LogStep-IsLog (silent same same') = silent-IsLog same same'
  LogStep-IsLog (opened c new empty saved same) =
      opened-IsLog c new empty
        (save-Put canvases c.id c s.canvases t.canvases (env.canvas_key c) saved) same
  LogStep-IsLog (appended c op there new of_c next saved logged) = record {
    placed =
        appended-Placed c op there new of_c next
          (save-Put canvases c.id _ s.canvases t.canvases (env.canvas_key _) saved)
          (save-Put operations op.id op s.operations t.operations (env.operation_key op) logged);
    distinct =
        appended-distinct c op there new of_c next
          (save-Put canvases c.id _ s.canvases t.canvases (env.canvas_key _) saved)
          (save-Put operations op.id op s.operations t.operations (env.operation_key op) logged);
    dense =
        appended-dense c op there new of_c next
          (save-Put canvases c.id _ s.canvases t.canvases (env.canvas_key _) saved)
          (save-Put operations op.id op s.operations t.operations (env.operation_key op) logged);
  }

-- Steps of the log keep the operations numbered from one to the revision.
pub LogRun-IsLog : (env : Env) (s t : State env) → IsLog env s → LogRun env s t → IsLog env t
LogRun-IsLog env s t log still = log
LogRun-IsLog env s t log (more {t = u} run step) =
    LogStep-IsLog env u t (LogRun-IsLog env s u log run) step
