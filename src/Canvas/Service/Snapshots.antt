-- ===== src/Canvas/Service/Snapshots.antt =====
-- What a snapshot and a commit of src/modules/canvas/services/canvas.service.ts hold.
use manbaa_backend.Base.{
  map, some_inj, true, subst, ◌↔◌, String, ◌≡◌, ◌⊎◌, sym, ap, ◌∙◌, inl, inr, true, Option, some,
  arith, eq_iff, eq_refl, Option-cases, ◌==◌, subst, keep-some, Has-All, Has-map, map-Has, or_else,
  Has,
}
use manbaa_backend.Exec.{Failure, ok, err, not_found}
use manbaa_backend.Session.Types.{RequestUser}
use manbaa_backend.Canvas.Types.{Canvas, CanvasObject, CanvasSnapshot, SnapshotObject, Workflow}
use manbaa_backend.Canvas.Service.{
  Env, State, find_workflow_in_org_or_throw, get_canvas, find_workflow_in_org, canvas_of_workflow,
  resolve_workflow_id,
}
use manbaa_backend.Canvas.Service.Commits.{
  snapshot_object, create_snapshot, get_snapshot, objects_of, snapshot_of,
}

module _ (env : Env) where
  canvas_cases :
      (workflow_id org_id : String) (s : State env)
      → ((e : Failure) × (get_canvas env workflow_id org_id s ≡ (err e, s)))
        ⊎ ((w : Workflow) × (c : Canvas) × (env.workflows.get workflow_id s.workflows ≡ some w)
            × ((w.org_id == org_id) ≡ true)
            × (c.workflow_id ≡ w.id)
            × (env.canvases.get c.id s.canvases ≡ some c)
            × (get_canvas env workflow_id org_id s ≡ (ok c, s)))
  unfolding get_canvas find_workflow_in_org_or_throw
  canvas_cases workflow_id org_id s =
      elim (Option-cases (find_workflow_in_org env workflow_id org_id s)) [
        | inl missing ↦ inl (not_found "Workflow not found", ground arith)
        | inr (w, there) ↦ elim (Option-cases (canvas_of_workflow env w.id s)) [
          | inl missing ↦ inl (not_found "Canvas not found for this workflow", ground arith)
          | inr (c, found) ↦
              let sound =
                env.canvases.find_where_sound (λ x. x.workflow_id == w.id) s.canvases c found in
              inr (
                w,
                c,
                (keep-some (λ x. x.org_id == org_id) (env.workflows.get workflow_id s.workflows) w
                    there).0,
                (keep-some (λ x. x.org_id == org_id) (env.workflows.get workflow_id s.workflows) w
                    there).1,
                (eq_iff c.workflow_id w.id).0 sound.0,
                ap (λ k. env.canvases.get k s.canvases) (sym (env.canvas_key c)) ∙ sound.1,
                ground arith,
              )
        ]
      ]

  read_back :
      (snapshot : CanvasSnapshot) (c : Canvas) (w : Workflow) (org_id : String) (t : State env)
      → env.snapshots.get snapshot.id t.snapshots ≡ some snapshot
      → env.canvases.get snapshot.canvas_id t.canvases ≡ some c
      → env.workflows.get c.workflow_id t.workflows ≡ some w
      → (w.org_id == org_id) ≡ true
      → get_snapshot env snapshot.id org_id t ≡ (ok snapshot, t)
  unfolding get_snapshot resolve_workflow_id
  read_back snapshot c w org_id t there found found_w of_org = ground arith

  of_canvas :
      (c : Canvas) (s : State env) (j : String) (o : CanvasObject)
      → env.objects.get j s.objects ≡ some o
      → Has (snapshot_object o) (map snapshot_object (objects_of env c s))
      → o.canvas_id ≡ c.id
  of_canvas c s j o there has =
      let (o', listed, copied) =
        map-Has snapshot_object (objects_of env c s) (snapshot_object o) has in
      let fits = env.objects_listing.select_sound (λ x. x.canvas_id == c.id) s.objects in
      let (of_c, stored) = Has-All _ (objects_of env c s) o' fits listed in
      let same_key : env.objects.key o' ≡ j =
        env.object_key o'
        ∙ (ap (λ (x : SnapshotObject). x.id) copied
            ∙ (sym (env.object_key o) ∙ env.objects.key-get j s.objects o there)) in
      let same : o' ≡ o =
        some_inj (sym stored ∙ (ap (λ k. env.objects.get k s.objects) same_key ∙ there)) in
      (eq_iff o.canvas_id c.id).0
        (subst (λ (x : CanvasObject). (x.canvas_id == c.id) ≡ true) same of_c)

  -- A snapshot that is made can be read back in the organisation it was made in, and of the objects that
  -- are stored it holds those of its canvas and no other.
  pub create-get_snapshot :
      (uuid workflow_id : String) (trigger : Option String) (caller : RequestUser) (s t : State env)
      (snapshot : CanvasSnapshot) (j : String) (o : CanvasObject)
      → create_snapshot env uuid workflow_id trigger caller s ≡ (ok snapshot, t)
      → env.objects.get j s.objects ≡ some o
      → (get_snapshot env snapshot.id caller.org_id t ≡ (ok snapshot, t))
        × (Has (snapshot_object o) snapshot.snapshot_data ↔ (o.canvas_id ≡ snapshot.canvas_id))
  unfolding create_snapshot
  create-get_snapshot uuid workflow_id trigger caller s t snapshot j o h there =
      elim (canvas_cases workflow_id caller.org_id s) [
        | inl (e, refused) ↦ absurd (ground (arith, h))
        | inr (w, c, found_w, of_org, of_w, found_c, got) ↦
            let taken =
              snapshot_of env uuid c (objects_of env c s) caller.id (or_else trigger "manual") in
            let same : taken ≡ snapshot = ground (arith, h) in
            let is_t : t ≡ record s {
              snapshots = env.snapshots.save taken s.snapshots;
              effects = t.effects;
            } =
              ground (arith, h) in
            let complete =
              env.objects_listing.select_complete (λ x. x.canvas_id == c.id) s.objects j o there in
            let copied : Has (snapshot_object o) (map snapshot_object (objects_of env c s))
                → o.canvas_id ≡ c.id =
              λ has. of_canvas c s j o there has in
            let stored : env.snapshots.get uuid t.snapshots ≡ some taken =
              ap (λ (x : State env). env.snapshots.get uuid x.snapshots) is_t
              ∙ (env.snapshots.get-save taken s.snapshots uuid
                  ∙ ground (arith, env.snapshot_key taken, eq_refl uuid)) in
            let of_workflow : env.workflows.get c.workflow_id s.workflows ≡ some w =
              ap (λ k. env.workflows.get k s.workflows)
                (of_w
                  ∙ (sym (env.workflow_key w)
                      ∙ env.workflows.key-get workflow_id s.workflows w found_w))
              ∙ found_w in
            subst
              (λ (x : CanvasSnapshot).
                (get_snapshot env x.id caller.org_id t ≡ (ok x, t))
                × (Has (snapshot_object o) x.snapshot_data ↔ (o.canvas_id ≡ x.canvas_id)))
              same
              (
                read_back taken c w caller.org_id t stored
                    (ap (λ (x : State env). env.canvases.get c.id x.canvases) is_t ∙ found_c)
                    (ap (λ (x : State env). env.workflows.get c.workflow_id x.workflows) is_t
                      ∙ of_workflow)
                    of_org,
                (
                  (λ has. copied has),
                  (λ of_c.
                      Has-map snapshot_object (objects_of env c s) o
                        (complete ((eq_iff o.canvas_id c.id).1 of_c))),
                ),
              )
      ]
