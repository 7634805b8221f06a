-- ===== src/Preview/Coordinator/Armed.antt =====
-- When the armed timers are those of the pending entries, and what keeps that.
use manbaa_backend.Base.{
  suc, ◌<◌, String, ◌≡◌, refl, sym, ◌∙◌, subst, ◌⊎◌, inl, inr, false, none, some, List, [], ◌∷◌,
  if◌then◌else◌, ◌==◌, Has, arith, eq_iff, Bool-cases,
}
use manbaa_backend.Preview.Coordinator.{PendingPreview, Timer, State, lookup, without, put}

module _ {Handler : Type 0} where
  pub lookup-without :
      (i j : String) (ps : List (String × PendingPreview Handler))
      → lookup j (without i ps) ≡ (if i == j then none else lookup j ps)
  lookup-without i j [] = ground arith
  lookup-without i j ((k, p) ∷ ps) =
      ground (arith, lookup-without i j ps, eq_iff k i, eq_iff k j, eq_iff i j)

  pub lookup-put :
      (i j : String) (p : PendingPreview Handler) (ps : List (String × PendingPreview Handler))
      → lookup j (put i p ps) ≡ (if i == j then some p else lookup j ps)
  lookup-put i j p ps = ground (arith, lookup-without i j ps)

  -- What is armed: each timer is the one of the entry of its canvas, and each entry has its timer; a
  -- canvas has one timer, and a handle was given once.
  pub record IsArmed (s : State Handler) : Type 0 where
    pub sound : (t : Timer Handler) → Has t s.timers → lookup t.canvas_id s.pending ≡ some t.pending
    pub complete :
        (c : String) (p : PendingPreview Handler)
        → lookup c s.pending ≡ some p
        → (t : Timer Handler) × Has t s.timers × (t.canvas_id ≡ c) × (t.pending ≡ p)
    pub fresh : (t : Timer Handler) → Has t s.timers → t.pending.timer < s.next_timer
    pub distinct :
        (t u : Timer Handler)
        → Has t s.timers
        → Has u s.timers
        → t.pending.timer ≡ u.pending.timer
        → t ≡ u
    pub one :
        (t u : Timer Handler) → Has t s.timers → Has u s.timers → t.canvas_id ≡ u.canvas_id → t ≡ u

  -- The canvas has neither an entry nor a timer any more; the others have what they had.
  pub record Dropped (c : String) (s s' : State Handler) : Type 0 where
    pub timers : (t : Timer Handler) → Has t s'.timers → Has t s.timers × (t.canvas_id == c ≡ false)
    pub kept : (t : Timer Handler) → Has t s.timers → t.canvas_id == c ≡ false → Has t s'.timers
    pub pending : (j : String) → lookup j s'.pending ≡ (if c == j then none else lookup j s.pending)
    pub next : s'.next_timer ≡ s.next_timer

  pub Dropped-IsArmed :
      (c : String) (s s' : State Handler) → IsArmed s → Dropped c s s' → IsArmed s'
  Dropped-IsArmed c s s' a d = record {
    sound = λ t h.
        let (there, other) = d.timers t h in
        let e = d.pending t.canvas_id in
        ground (arith, a.sound t there, eq_iff t.canvas_id c, eq_iff c t.canvas_id);
    complete = λ j p h. elim (Bool-cases (c == j)) [
      | inl hit ↦ absurd (ground (arith, d.pending j))
      | inr miss ↦
          let found : lookup j s.pending ≡ some p = ground (arith, d.pending j) in
          let (t, there, at, same) = a.complete j p found in
          (t, d.kept t there (ground (arith, eq_iff t.canvas_id c, eq_iff c j)), at, same)
    ];
    fresh = λ t h. rw d.next (a.fresh t (d.timers t h).0);
    distinct = λ t u h h' e. a.distinct t u (d.timers t h).0 (d.timers u h').0 e;
    one = λ t u h h' e. a.one t u (d.timers t h).0 (d.timers u h').0 e;
  }

  -- A timer was armed for a canvas that had none, with its entry.
  pub record Armed (t : Timer Handler) (s s' : State Handler) : Type 0 where
    pub timers : s'.timers ≡ t ∷ s.timers
    pub pending :
        (j : String)
        → lookup j s'.pending ≡ (if t.canvas_id == j then some t.pending else lookup j s.pending)
    pub handle : t.pending.timer ≡ s.next_timer
    pub next : s'.next_timer ≡ suc s.next_timer
    pub free : lookup t.canvas_id s.pending ≡ none

  pub Armed-IsArmed :
      (t : Timer Handler) (s s' : State Handler) → IsArmed s → Armed t s s' → IsArmed s'
  Armed-IsArmed t s s' a d = record {
    sound = λ u h. elim (cases u h) [
      | inl same ↦
          subst (λ (v : Timer Handler). lookup v.canvas_id s'.pending ≡ some v.pending) same here
      | inr there ↦ ground (arith, d.pending u.canvas_id, apart u there, a.sound u there)
    ];
    complete = λ j p h. elim (Bool-cases (t.canvas_id == j)) [
      | inl hit ↦
          (t, rw d.timers (inl refl), (eq_iff t.canvas_id j).0 hit, ground (arith, d.pending j))
      | inr miss ↦
          let (u, there, at, same) = a.complete j p (ground (arith, d.pending j)) in
          (u, rw d.timers (inr there), at, same)
    ];
    fresh = λ u h. elim (cases u h) [
      | inl same ↦
          subst (λ (v : Timer Handler). v.pending.timer < s'.next_timer) same
            (omega (arith, d.handle, d.next))
      | inr there ↦ omega (arith, a.fresh u there, d.next)
    ];
    distinct = λ u v h h' e. elim (cases u h) [
      | inl same ↦ elim (cases v h') [
        | inl same' ↦ sym same ∙ same'
        | inr there' ↦ absurd (omega (arith, a.fresh v there', d.handle, e, handle_of u same))
      ]
      | inr there ↦ elim (cases v h') [
        | inl same' ↦ absurd (omega (arith, a.fresh u there, d.handle, e, handle_of v same'))
        | inr there' ↦ a.distinct u v there there' e
      ]
    ];
    one = λ u v h h' e. elim (cases u h) [
      | inl same ↦ elim (cases v h') [
        | inl same' ↦ sym same ∙ same'
        | inr there' ↦ absurd (clash u v same there' e)
      ]
      | inr there ↦ elim (cases v h') [
        | inl same' ↦ absurd (clash v u same' there (sym e))
        | inr there' ↦ a.one u v there there' e
      ]
    ];
  }
    where
      cases : (u : Timer Handler) → Has u s'.timers → (t ≡ u) ⊎ Has u s.timers
      cases u h = subst (Has u) d.timers h

      apart : (u : Timer Handler) → Has u s.timers → t.canvas_id == u.canvas_id ≡ false
      apart u there = ground (arith, a.sound u there, d.free, eq_iff t.canvas_id u.canvas_id)

      here : lookup t.canvas_id s'.pending ≡ some t.pending
      here = ground (arith, d.pending t.canvas_id, eq_iff t.canvas_id t.canvas_id)

      handle_of : (u : Timer Handler) → t ≡ u → t.pending.timer ≡ u.pending.timer
      handle_of u same = rw same refl

      clash : (u v : Timer Handler) → t ≡ u → Has v s.timers → u.canvas_id ≡ v.canvas_id → ⊥
      clash u v same there e =
          let at : t.canvas_id ≡ v.canvas_id = rw same e in
          ground (arith, apart v there, eq_iff t.canvas_id v.canvas_id)
