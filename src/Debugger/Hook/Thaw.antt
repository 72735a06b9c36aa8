-- ===== src/Debugger/Hook/Thaw.antt =====
-- src/core/scripting/debugger/hook.rs: no event leaves the world stopped.
use oxigeon.Base.{
  ℕ, zero, suc, ◌%◌, ◌^◌, Bool, true, false, not, ◌&&◌, ◌||◌, Option, none, some, ◌==◌, ltb,
  if◌then◌else◌, Bytes, ◌≡◌, refl, ◌∙◌, Bool-cases, Option-cases, inl, inr,
}
use oxigeon.Telnet.Mxp.State.{equals}
use oxigeon.Debugger.Rings.{TraceKind}
use oxigeon.Debugger.State.{StopReason, DebugState, wants_any, is_plain, BreakpointSpec}
use oxigeon.Debugger.Hook.{
  HookLocal, step_satisfied, bounded_depth, Frame, Vm, BpOutcome, pass, stop, log, key_for,
  looked_up, refresh, Condition, met, not_met, condition_failed,
}
use oxigeon.Debugger.Hook.Breakpoints
use oxigeon.Debugger.Hook.Breakpoints.{at_line, gated, enough, spec_at, is_nil, at_key, at_source}
use oxigeon.Debugger.Hook.Stops.{park_and_yield}
use oxigeon.Debugger.Hook.Events.{
  World, Occasion, VmState, goes_on, yields, on_event, watched, observed, stopped, halted, stop_for,
  outcome, traced, recorded, counted, kind_of, is_count, charged, is_step, is_line, is_lines,
}
use oxigeon.Debugger.Hook.Frozen.{
  IsThawed, emit-stopped, enter_pause-IsThawed, refresh-vm_rx, counted-vm_rx,
  emit_logpoint-IsThawed,
}

key_for-vm_rx :
    (fold : Bytes → Bytes) (chunk : Bytes) (hl : HookLocal)
    → (key_for fold chunk hl).0.vm_rx ≡ hl.vm_rx
unfolding key_for looked_up
key_for-vm_rx fold chunk hl = go hl.last_src refl
  where
    go :
        (l : Option (Bytes × Option Bytes))
        → hl.last_src ≡ l
        → (key_for fold chunk hl).0.vm_rx ≡ hl.vm_rx
    go none q = rw (q, key_for, looked_up)
    go (some (c, k)) q = elim (Bool-cases (equals c chunk)) [
      | inl e ↦ rw (q, e, key_for)
      | inr e ↦ rw (q, e, key_for, looked_up)
    ]

module _ (luajit : Bool) (fold : Bytes → Bytes) (print : ℕ → Bytes) where
  gated-stopped :
      (vm : Vm) (chunk : Bytes) (l : ℕ) (spec : BreakpointSpec) (hits : ℕ) (st : DebugState)
      → (gated fold print vm chunk l spec hits st).0.stopped ≡ st.stopped
  unfolding gated
  gated-stopped vm chunk l spec hits st = elim (Bool-cases (enough spec.hit_condition hits)) [
    | inr e ↦ rw (e, gated)
    | inl e ↦ elim (Option-cases spec.condition) [
      | inl c ↦ rw (e, c, gated)
      | inr (expr, c) ↦ judged e expr c (vm.eval_condition expr) refl
    ]
  ]
    where
      judged :
          enough spec.hit_condition hits ≡ true
          → (expr : Bytes) → spec.condition ≡ some expr
          → (k : Condition) → vm.eval_condition expr ≡ k
          → (gated fold print vm chunk l spec hits st).0.stopped ≡ st.stopped
      judged e expr c met q = rw (e, c, q, gated)
      judged e expr c not_met q = rw (e, c, q, gated)
      judged e expr c (condition_failed problem) q = rw (e, c, q, gated) (emit-stopped _ st)

  at_line-IsThawed :
      (vm : Vm) (chunk key : Bytes) (l : ℕ) (st : DebugState) (hl : HookLocal)
      → IsThawed st hl
      → let (st', hl', out) = at_line fold print vm chunk key l st hl in IsThawed st' hl'
  unfolding at_line
  at_line-IsThawed vm chunk key l st hl h = elim (Option-cases (spec_at key l hl.bps)) [
    | inl e ↦ rw (e, at_line) h
    | inr (spec, e) ↦ elim (Bool-cases (is_plain spec)) [
      | inl p ↦ rw (e, p, at_line) h
      | inr p ↦ rw (e, p, at_line) (gated-stopped vm chunk l spec _ st ∙ h.0, h.1)
    ]
  ]

  at_key-IsThawed :
      (vm : Vm) (chunk : Bytes) (l : ℕ) (st : DebugState) (found : HookLocal × Option Bytes)
      → IsThawed st found.0
      → let (st', hl', out) = at_key fold print vm chunk l st found in IsThawed st' hl'
  unfolding at_key
  at_key-IsThawed vm chunk l st (hl, none) h = h
  at_key-IsThawed vm chunk l st (hl, some key) h = at_line-IsThawed vm chunk key l st hl h

  at_source-IsThawed :
      (vm : Vm) (l : Option ℕ) (chunk : Option Bytes) (st : DebugState) (hl : HookLocal)
      → IsThawed st hl
      → let (st', hl', out) = at_source fold print vm l chunk st hl in IsThawed st' hl'
  unfolding at_source
  at_source-IsThawed vm none chunk st hl h = h
  at_source-IsThawed vm (some zero) chunk st hl h = h
  at_source-IsThawed vm (some (suc l)) none st hl h = h
  at_source-IsThawed vm (some (suc l)) (some chunk) st hl h =
      at_key-IsThawed vm chunk (suc l % 2 ^ 32) st (key_for fold chunk hl)
        (h.0, key_for-vm_rx fold chunk hl ∙ h.1)

  at_breakpoint-IsThawed :
      (vm : Vm) (frame : Frame) (st : DebugState) (hl : HookLocal)
      → IsThawed st hl
      → let (st', hl', out) = Breakpoints.at_breakpoint fold print vm frame st hl in
        IsThawed st' hl'
  unfolding Breakpoints.at_breakpoint
  at_breakpoint-IsThawed vm frame st hl h =
      elim (Bool-cases (is_nil fold print hl.bps || frame.is_c)) [
        | inl e ↦ rw (e, Breakpoints.at_breakpoint) h
        | inr e ↦
            rw (e, Breakpoints.at_breakpoint)
              (at_source-IsThawed vm frame.current_line frame.chunk st hl h)
      ]

  outcome-IsThawed :
      (r : DebugState × HookLocal × BpOutcome)
      → IsThawed r.0 r.1
      → let (st', hl', reason) = outcome luajit fold print r in IsThawed st' hl'
  unfolding outcome
  outcome-IsThawed (st, hl, stop) h = h
  outcome-IsThawed (st, hl, log text) h = emit_logpoint-IsThawed st hl text h
  outcome-IsThawed (st, hl, pass) h = h

  stop_for-IsThawed :
      (o : Occasion) (st : DebugState) (hl : HookLocal)
      → IsThawed st hl
      → let (st', hl', reason) = stop_for luajit fold print o st hl in IsThawed st' hl'
  unfolding stop_for
  stop_for-IsThawed o st hl h = elim (Bool-cases st.pause_req) [
    | inl e ↦ rw (e, stop_for) h
    | inr e ↦
        elim (Bool-cases (is_step hl.step && step_satisfied (bounded_depth o.vm.levels) hl.step)) [
          | inl s ↦ rw (e, s, stop_for) h
          | inr s ↦ elim (Bool-cases (ltb 0 st.bp_count)) [
            | inl b ↦
                rw (e, s, b, stop_for)
                  (outcome-IsThawed
                    (Breakpoints.at_breakpoint fold print o.vm o.frame
                      (record st { pause_req = false }) hl)
                    (at_breakpoint-IsThawed o.vm o.frame (record st { pause_req = false }) hl h))
            | inr b ↦ rw (e, s, b, stop_for) h
          ]
        ]
  ]

  abbrev IsGoing : World → Type 0
  IsGoing w = IsThawed w.state w.local

  halted-IsGoing :
      (o : Occasion) (reason : StopReason) (w : World)
      → IsGoing w
      → IsGoing (halted luajit fold print o reason w).0
  unfolding halted park_and_yield
  halted-IsGoing o reason w h =
      elim (Bool-cases (not luajit && (not w.state.stop_the_world && o.can_yield))) [
        | inl e ↦ rw (e, halted, park_and_yield) (emit-stopped _ _ ∙ h.0, h.1)
        | inr e ↦
            rw (e, halted)
              (enter_pause-IsThawed o.now (bounded_depth o.vm.levels) reason o.arrivals w.state
                w.local h.1)
      ]

  stopped-IsGoing :
      (o : Occasion) (w : World) → IsGoing w → IsGoing (stopped luajit fold print o w).0
  unfolding stopped
  stopped-IsGoing o w h =
      let r = stop_for luajit fold print o w.state w.local in
      let thawed = stop_for-IsThawed o w.state w.local h in
      elim (Option-cases r.2) [
        | inl e ↦ rw (e, stopped) thawed
        | inr (reason, e) ↦
            rw (e, stopped) (halted-IsGoing o reason (record w { state = r.0; local = r.1 }) thawed)
      ]

  traced-same :
      (o : Occasion) (k : TraceKind) (w : World)
      → IsGoing w
      → IsGoing (traced luajit fold print o k w)
  unfolding traced recorded
  traced-same o k w h = elim (Bool-cases (not o.traced || not w.state.want.trace)) [
    | inl e ↦ rw (e, traced) h
    | inr e ↦ elim (Bool-cases (is_line k && not (is_lines w.local.mode))) [
      | inl f ↦ rw (e, f, traced) h
      | inr f ↦ rw (e, f, traced, recorded) h
    ]
  ]

  halted_or_traced :
      (o : Occasion) (k : TraceKind) (r : World × Bool)
      → IsGoing r.0
      → let out : World × VmState =
          if r.1 then (r.0, yields) else (traced luajit fold print o k r.0, goes_on) in
        IsGoing out.0
  halted_or_traced o k (w, true) h = h
  halted_or_traced o k (w, false) h = traced-same o k w h

  observed-IsGoing :
      (o : Occasion) (debugging : Bool) (w : World)
      → IsGoing w
      → IsGoing (observed luajit fold print o debugging w).0
  unfolding observed
  observed-IsGoing o debugging w h = elim (Option-cases (kind_of luajit o.event)) [
    | inl e ↦ rw (e, observed) (h.0, refresh-vm_rx w.state w.local ∙ h.1)
    | inr (k, e) ↦
        let hl = counted k (bounded_depth o.vm.levels) (refresh w.state w.local) in
        let w' : World = record w { local = hl } in
        let going : IsGoing w' = (
          h.0,
          counted-vm_rx k (bounded_depth o.vm.levels) (refresh w.state w.local)
              ∙ refresh-vm_rx w.state w.local
              ∙ h.1,
        ) in
        elim (Bool-cases (is_line k && debugging)) [
          | inl l ↦
              rw (e, l, observed)
                (halted_or_traced o k (stopped luajit fold print o w') (stopped-IsGoing o w' going))
          | inr l ↦ rw (e, l, observed) (traced-same o k w' going)
        ]
  ]

  watched-IsGoing :
      (o : Occasion) (w : World) → IsGoing w → IsGoing (watched luajit fold print o w).0
  unfolding watched
  watched-IsGoing o w h = elim (Bool-cases (is_count o.event)) [
    | inl e ↦ rw (e, watched) h
    | inr e ↦ elim (Bool-cases (not (ltb 0 w.state.clients) && not o.traced)) [
      | inl f ↦ rw (e, f, watched) h
      | inr f ↦ rw (e, f, watched) (observed-IsGoing o (ltb 0 w.state.clients) w h)
    ]
  ]

  charged-vm_rx :
      (counts : Bool) (st : DebugState) (hl : HookLocal) → (charged counts st hl).vm_rx ≡ hl.vm_rx
  charged-vm_rx true st hl = refl
  charged-vm_rx false st hl = refl

  -- Whatever the event, the breakpoints and the client's requests: when the callback returns, the
  -- world is not stopped and the channel of requests is back in its place, if it was so before, be
  -- it that the dispatch goes on, is suspended, or is ended for its budget.
  pub on_event-IsGoing :
      (o : Occasion) (w : World) → IsGoing w → IsGoing (on_event luajit fold print o w).0
  unfolding on_event
  on_event-IsGoing o w h = elim (Bool-cases (not w.state.armed || not (wants_any w.state.want))) [
    | inl a ↦ rw (a, on_event) h
    | inr a ↦ elim (Bool-cases (w.state.want.budget && (w.state.clients == 0))) [
      | inr b ↦ rw (a, b, on_event) (watched-IsGoing o w h)
      | inl b ↦
          let w' : World = record w { local = charged (is_count o.event) w.state w.local } in
          let going : IsGoing w' = (h.0, charged-vm_rx (is_count o.event) w.state w.local ∙ h.1) in
          elim (Bool-cases (ltb w.state.instruction_limit w'.local.instr_used)) [
            | inl l ↦ rw (a, b, l, on_event) going
            | inr l ↦ rw (a, b, l, on_event) (watched-IsGoing o w' going)
          ]
    ]
  ]
