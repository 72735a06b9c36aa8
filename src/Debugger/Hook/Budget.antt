-- ===== src/Debugger/Hook/Budget.antt =====
-- src/core/scripting/debugger/hook.rs: when the instruction budget of a dispatch is spent.
use oxigeon.Base.{
  ℕ, ◌+◌, ◌^◌, ◌<◌, Bool, true, false, List, [], ◌∷◌, ltb, ◌==◌, if◌then◌else◌, Bytes, ◌≡◌, refl,
  sym, ap, ◌∙◌, subst, arith, Bool-cases, inl, inr, Option, none, some,
}
use oxigeon.Debugger.Rings.{TraceKind, call, ret, line}
use oxigeon.Debugger.State.{wants_any, DebugState}
use oxigeon.Debugger.Hook.{HookLocal, refresh, bounded_depth}
use oxigeon.Debugger.Hook.Events.{
  World, Occasion, DebugEvent, on_call, on_tail_call, on_ret, on_line, on_count, on_other, VmState,
  goes_on, raises, is_count, charged, counted, traced, kind_of, recorded, observed, on_event,
  watched, limit_text, begin_budget,
}

-- The budget is on, and no client is attached.
abbrev pub IsLimited : DebugState → Type 0
IsLimited st = (st.armed ≡ true) × (st.want.budget ≡ true) × (st.clients ≡ 0)

-- A count event stands for so many instructions, and no other event for any.
abbrev pub cost : DebugEvent → ℕ → ℕ
cost on_count step = step
cost _ step = 0

abbrev pub cost_of : List Occasion → ℕ → ℕ
cost_of [] step = 0
cost_of (o ∷ os) step = cost o.event step + cost_of os step

-- The state is the same, and so many instructions are counted.
abbrev Keeps : DebugState → ℕ → World → Type 0
Keeps st used w = (w.state ≡ st) × (w.local.instr_used ≡ used)

refresh-instr_used : (st : DebugState) (hl : HookLocal) → (refresh st hl).instr_used ≡ hl.instr_used
unfolding refresh
refresh-instr_used st hl = elim (Bool-cases (st.generation == hl.gen_seen)) [
  | inl e ↦ rw (e, refresh) refl
  | inr e ↦ rw (e, refresh) refl
]

counted-instr_used :
    (k : TraceKind) (depth : ℕ) (hl : HookLocal) → (counted k depth hl).instr_used ≡ hl.instr_used
unfolding counted
counted-instr_used call depth hl = refl
counted-instr_used ret depth hl = refl
counted-instr_used line depth hl = refl

Keeps-if :
    (st : DebugState) (used : ℕ) (b : Bool) (x y : World)
    → Keeps st used x
    → Keeps st used y
    → Keeps st used (if b then x else y)
Keeps-if st used true x y p q = p
Keeps-if st used false x y p q = q

Either-Keeps :
    (st : DebugState) (used : ℕ) (b : Bool) (x y : World × VmState)
    → Keeps st used x.0
    → Keeps st used y.0
    → Keeps st used (if b then x else y).0
Either-Keeps st used true x y p q = p
Either-Keeps st used false x y p q = q

module _ (luajit : Bool) (fold : Bytes → Bytes) (print : ℕ → Bytes) where
  traced-Keeps :
      (o : Occasion) (k : TraceKind) (st : DebugState) (used : ℕ) (w : World)
      → Keeps st used w
      → Keeps st used (traced luajit fold print o k w)
  unfolding traced recorded
  traced-Keeps o k st used w h = Keeps-if st used _ w _ h (Keeps-if st used _ w _ h h)

  observed-Keeps :
      (o : Occasion) (w : World)
      → Keeps w.state w.local.instr_used (observed luajit fold print o false w).0
  unfolding observed
  observed-Keeps o w = go (kind_of luajit o.event) refl
    where
      hl : HookLocal
      hl = refresh w.state w.local

      shown :
          (k : TraceKind)
          → Keeps w.state w.local.instr_used (
              traced luajit fold print o k
                (record w { local = counted k (bounded_depth o.vm.levels) hl }))
      shown k =
          traced-Keeps o k w.state w.local.instr_used
            (record w { local = counted k (bounded_depth o.vm.levels) hl })
            (
              refl,
              counted-instr_used k (bounded_depth o.vm.levels) hl
                  ∙ refresh-instr_used w.state w.local,
            )

      go :
          (k : Option TraceKind)
          → kind_of luajit o.event ≡ k
          → Keeps w.state w.local.instr_used (observed luajit fold print o false w).0
      go none e = rw (e, observed) (refl, refresh-instr_used w.state w.local)
      go (some call) e = rw (e, observed) (shown call)
      go (some ret) e = rw (e, observed) (shown ret)
      go (some line) e = rw (e, observed) (shown line)

  watched-Keeps :
      (o : Occasion) (w : World)
      → w.state.clients ≡ 0
      → Keeps w.state w.local.instr_used (watched luajit fold print o w).0
  unfolding watched
  watched-Keeps o w h =
      let unwatched : ltb 0 w.state.clients ≡ false = ground arith in
      Either-Keeps w.state w.local.instr_used (is_count o.event) (w, goes_on) _ (refl, refl)
        (Either-Keeps w.state w.local.instr_used _ (w, goes_on) _ (refl, refl)
          (subst (λ b. Keeps w.state w.local.instr_used (observed luajit fold print o b w).0)
            (sym unwatched) (observed-Keeps o w)))

  charged-cost :
      (o : Occasion) (st : DebugState) (hl : HookLocal)
      → hl.instr_used + st.instruction_step < 2 ^ 64
      → (charged (is_count o.event) st hl).instr_used
        ≡ hl.instr_used + cost o.event st.instruction_step
  charged-cost o st hl l = go o.event
    where
      small : ltb (hl.instr_used + st.instruction_step) (2 ^ 64) ≡ true
      small = ground arith

      go :
          (e : DebugEvent)
          → (charged (is_count e) st hl).instr_used ≡ hl.instr_used + cost e st.instruction_step
      go on_count = rw small refl
      go on_call = omega arith
      go on_tail_call = omega arith
      go on_ret = omega arith
      go on_line = omega arith
      go on_other = omega arith

  abbrev charge : Occasion → World → World
  charge o w = record w { local = charged (is_count o.event) w.state w.local }

  abbrev verdict_on : Occasion → World → World × VmState
  verdict_on o w =
      if ltb w.state.instruction_limit w.local.instr_used
      then (w, raises (limit_text luajit fold print w.state.instruction_limit))
      else watched luajit fold print o w

  on_event-charge :
      (o : Occasion) (w : World)
      → IsLimited w.state
      → on_event luajit fold print o w ≡ verdict_on o (charge o w)
  unfolding on_event
  on_event-charge o w h =
      let any : wants_any w.state.want ≡ true = ground (arith, h.1) in
      rw (h.0, any, h.1, h.2, on_event) refl

  on_event-Keeps :
      (o : Occasion) (w : World)
      → IsLimited w.state
      → w.local.instr_used + w.state.instruction_step < 2 ^ 64
      → Keeps w.state
          (w.local.instr_used + cost o.event w.state.instruction_step)
          (on_event luajit fold print o w).0
  on_event-Keeps o w h l =
      let paid = charged-cost o w.state w.local l in
      let later = watched-Keeps o (charge o w) h.2 in
      subst (λ r. Keeps w.state (w.local.instr_used + cost o.event w.state.instruction_step) r.0)
        (sym (on_event-charge o w h))
        (Either-Keeps w.state _ _ _ _ (refl, paid) (later.0, later.1 ∙ paid))

  abbrev verdict : DebugState → ℕ → VmState
  verdict st n =
      if ltb st.instruction_limit n
      then raises (limit_text luajit fold print st.instruction_limit)
      else goes_on

  verdict_on-count :
      (o : Occasion) (w : World)
      → o.event ≡ on_count
      → (verdict_on o w).1 ≡ (
          if ltb w.state.instruction_limit w.local.instr_used
          then raises (limit_text luajit fold print w.state.instruction_limit)
          else goes_on)
  unfolding watched
  verdict_on-count o w k = elim (Bool-cases (ltb w.state.instruction_limit w.local.instr_used)) [
    | inl e ↦ rw e refl
    | inr e ↦ rw (e, k, watched) refl
  ]

  count-verdict :
      (o : Occasion) (w : World)
      → o.event ≡ on_count
      → IsLimited w.state
      → w.local.instr_used + w.state.instruction_step < 2 ^ 64
      → (on_event luajit fold print o w).1 ≡ (
          if ltb w.state.instruction_limit (w.local.instr_used + w.state.instruction_step)
          then raises (limit_text luajit fold print w.state.instruction_limit)
          else goes_on)
  count-verdict o w k h l =
      ap (λ r. r.1) (on_event-charge o w h)
      ∙ verdict_on-count o (charge o w) k
      ∙ ap
          (λ n.
            if ltb w.state.instruction_limit n
            then raises (limit_text luajit fold print w.state.instruction_limit)
            else goes_on)
          (charged-cost o w.state w.local l
            ∙ ap (λ e. w.local.instr_used + cost e w.state.instruction_step) k)

  -- The events of a dispatch, one after another.
  unfoldable pub run_events : List Occasion → World → World
  unfolding on_event
  run_events [] w = w
  run_events (o ∷ os) w = run_events os (on_event luajit fold print o w).0

  after-Keeps :
      (o : Occasion) (st : DebugState) (used : ℕ) (w : World)
      → IsLimited st
      → Keeps st used w
      → used + st.instruction_step < 2 ^ 64
      → Keeps st (used + cost o.event st.instruction_step) (on_event luajit fold print o w).0
  after-Keeps o st used w h (e, u) l =
      let limited : IsLimited w.state = subst IsLimited (sym e) h in
      let small : w.local.instr_used + w.state.instruction_step < 2 ^ 64 =
        omega (arith, u, ap (λ s. s.instruction_step) e, l) in
      let next = on_event-Keeps o w limited small in
      (
        next.0 ∙ e,
        next.1
            ∙ ap (λ s. w.local.instr_used + cost o.event s.instruction_step) e
            ∙ ap (λ n. n + cost o.event st.instruction_step) u,
      )

  run_events-Keeps :
      (os : List Occasion) (st : DebugState) (used : ℕ) (w : World)
      → IsLimited st
      → Keeps st used w
      → used + (cost_of os st.instruction_step + st.instruction_step) < 2 ^ 64
      → Keeps st (used + cost_of os st.instruction_step) (run_events os w)
  unfolding run_events
  run_events-Keeps [] st used w h k l = (k.0, k.1 ∙ omega arith)
  run_events-Keeps (o ∷ os) st used w h k l =
      let small : used + st.instruction_step < 2 ^ 64 = omega arith in
      let next = after-Keeps o st used w h k small in
      let rest =
        run_events-Keeps os st (used + cost o.event st.instruction_step)
          (on_event luajit fold print o w).0 h next (omega arith) in
      (rest.0, rest.1 ∙ omega arith)

  -- With the hook armed, a budget and no client, whatever the events of the dispatch so far (calls,
  -- returns, lines, counts), each traced or not: a count event raises the error of the limit exactly
  -- when the instructions that the count events so far and this one stand for are more than the limit,
  -- and else goes on, as long as that number is a u64.
  pub run_events-on_event :
      (os : List Occasion) (o : Occasion) (w : World)
      → o.event ≡ on_count
      → IsLimited w.state
      → cost_of os w.state.instruction_step + w.state.instruction_step < 2 ^ 64
      → (on_event luajit fold print o (run_events os (begin_budget w))).1 ≡ (
          if ltb w.state.instruction_limit
            (cost_of os w.state.instruction_step + w.state.instruction_step)
          then raises (limit_text luajit fold print w.state.instruction_limit)
          else goes_on)
  unfolding begin_budget
  run_events-on_event os o w k h l =
      let kept = run_events-Keeps os w.state 0 (begin_budget w) h (refl, refl) (omega arith) in
      let now = run_events os (begin_budget w) in
      let used : now.local.instr_used ≡ cost_of os w.state.instruction_step =
        kept.1 ∙ omega arith in
      let small : now.local.instr_used + now.state.instruction_step < 2 ^ 64 =
        omega (arith, used, ap (λ s. s.instruction_step) kept.0, l) in
      count-verdict o now k (subst IsLimited (sym kept.0) h) small
      ∙ ap (λ s. verdict s (now.local.instr_used + s.instruction_step)) kept.0
      ∙ ap (λ n. verdict w.state (n + w.state.instruction_step)) used
