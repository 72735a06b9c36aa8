-- ===== src/Debugger/Hook/Frozen.antt =====
-- src/core/scripting/debugger/hook.rs: the world does not stay stopped.
use oxigeon.Base.{
  ℕ, ◌+◌, ◌-◌, ◌/◌, ◌^◌, ◌≤◌, ◌<◌, true, false, List, [], ◌∷◌, ◌++◌, append_assoc, ap, ◌==◌, ltb,
  leb, Bytes, All, ◌≡◌, refl, ◌∙◌, arith, Bool-cases, inl, inr,
}
use oxigeon.Debugger.Rings.{TraceKind, call, ret, line}
use oxigeon.Debugger.State.{
  stopped_at, continued, world_stop, StopReason, DebugState, DebugEventMsg,
}
use oxigeon.Debugger.State.Operations.{emit, add_paused}
use oxigeon.Debugger.Hook.{HookLocal, StepState, refresh, emit_logpoint, saturating}
use oxigeon.Debugger.Hook.Stops.{
  resumes, detaches, stack_trace, scopes, variables, evaluates, Arrival, request, timed_out,
  disconnected, pause_loop, heard, enter_pause, deadline_from,
}
use oxigeon.Debugger.Hook.Events.{counted}

heard-deadline :
    (deadline depth t : ℕ) (a : Arrival) (served : ℕ × StepState)
    → t ≤ deadline
    → served.0 ≤ deadline
    → (heard depth t a served).0 ≤ deadline
heard-deadline deadline depth t (request (resumes kind)) served h k = h
heard-deadline deadline depth t (request detaches) served h k = h
heard-deadline deadline depth t (request stack_trace) served h k = k
heard-deadline deadline depth t (request scopes) served h k = k
heard-deadline deadline depth t (request variables) served h k = k
heard-deadline deadline depth t (request evaluates) served h k = k
heard-deadline deadline depth t timed_out served h k = k
heard-deadline deadline depth t disconnected served h k = h

pause_loop-deadline :
    (deadline depth now : ℕ) (arrivals : List (ℕ × Arrival))
    → now ≤ deadline
    → All (λ a. a.0 ≤ deadline) arrivals
    → (pause_loop deadline depth now arrivals).0 ≤ deadline
unfolding pause_loop
pause_loop-deadline deadline depth now [] l h = ground arith
pause_loop-deadline deadline depth now ((t, a) ∷ rest) l h =
    let served = pause_loop deadline depth t rest in
    let later = pause_loop-deadline deadline depth t rest h.0 h.1 in
    elim (Bool-cases (leb deadline now)) [
      | inl e ↦ rw (e, pause_loop) l
      | inr e ↦ rw (e, pause_loop) (heard-deadline deadline depth t a served h.0 later)
    ]

-- The world goes on, and the channel of requests is in its place.
abbrev pub IsThawed : DebugState → HookLocal → Type 0
IsThawed st hl = (st.stopped ≡ false) × (hl.vm_rx ≡ true)

pub emit-stopped : (msg : DebugEventMsg) (st : DebugState) → (emit msg st).stopped ≡ st.stopped
unfolding emit
emit-stopped msg st = elim (Bool-cases st.listening) [ inl e ↦ rw (e, emit) | inr e ↦ rw (e, emit) ]

emit-paused_ms : (msg : DebugEventMsg) (st : DebugState) → (emit msg st).paused_ms ≡ st.paused_ms
unfolding emit
emit-paused_ms msg st = elim (Bool-cases st.listening) [
  | inl e ↦ rw (e, emit)
  | inr e ↦ rw (e, emit)
]

pub enter_pause-IsThawed :
    (now depth : ℕ) (reason : StopReason) (arrivals : List (ℕ × Arrival)) (st : DebugState)
    (hl : HookLocal)
    → hl.vm_rx ≡ true
    → let (st', hl') = enter_pause now depth reason arrivals st hl in IsThawed st' hl'
unfolding enter_pause
enter_pause-IsThawed now depth reason arrivals st hl h =
    rw (h, enter_pause) (emit-stopped _ _, refl)

pub refresh-vm_rx : (st : DebugState) (hl : HookLocal) → (refresh st hl).vm_rx ≡ hl.vm_rx
unfolding refresh
refresh-vm_rx st hl = elim (Bool-cases (st.generation == hl.gen_seen)) [
  | inl e ↦ rw (e, refresh)
  | inr e ↦ rw (e, refresh)
]

pub counted-vm_rx :
    (k : TraceKind) (depth : ℕ) (hl : HookLocal) → (counted k depth hl).vm_rx ≡ hl.vm_rx
unfolding counted
counted-vm_rx call depth hl = refl
counted-vm_rx ret depth hl = refl
counted-vm_rx line depth hl = refl

pub emit_logpoint-IsThawed :
    (st : DebugState) (hl : HookLocal) (text : Bytes)
    → IsThawed st hl
    → let (st', hl') = emit_logpoint st hl text in IsThawed st' hl'
unfolding emit_logpoint
emit_logpoint-IsThawed st hl text h = elim (Bool-cases (ltb (saturating 32 hl.logpoints) 200)) [
  | inl e ↦ rw (e, emit_logpoint) (emit-stopped _ st ∙ h.0, h.1)
  | inr e ↦ elim (Bool-cases (saturating 32 hl.logpoints == 200)) [
    | inl f ↦ rw (e, f, emit_logpoint) (emit-stopped _ st ∙ h.0, h.1)
    | inr f ↦ rw (e, f, emit_logpoint) h
  ]
]

emit-listening : (msg : DebugEventMsg) (st : DebugState) → (emit msg st).listening ≡ st.listening
unfolding emit
emit-listening msg st = elim (Bool-cases st.listening) [
  | inl e ↦ rw (e, emit)
  | inr e ↦ rw (e, emit)
]

emit-events :
    (msg : DebugEventMsg) (st : DebugState)
    → st.listening ≡ true
    → (emit msg st).events ≡ st.events ++ msg ∷ []
unfolding emit
emit-events msg st e = rw (e, emit) refl

-- Behind a stop of the whole world, whatever the client asked during it: the world goes on, the client,
-- which listens, was sent that the world stopped, for this reason, and then that it goes on, and nothing
-- else, and the time that is banked for the stop is no more than the configured limit. What arrives,
-- arrives by the deadline, and the count of the time does not wrap.
pub enter_pause-bounded :
    (now depth : ℕ) (reason : StopReason) (arrivals : List (ℕ × Arrival)) (st : DebugState)
    (hl : HookLocal)
    → hl.vm_rx ≡ true
    → All (λ a. a.0 ≤ deadline_from now st) arrivals
    → st.paused_ms + st.auto_continue < 2 ^ 64
    → st.listening ≡ true
    → let (st', hl') = enter_pause now depth reason arrivals st hl in
      IsThawed st' hl'
      × (st'.events
          ≡ st.events ++ stopped_at world_stop reason true ∷ continued world_stop true ∷ [])
      × (st'.paused_ms ≤ st.paused_ms + st.auto_continue)
unfolding enter_pause add_paused
enter_pause-bounded now depth reason arrivals st hl h a l n =
    let stopped = emit (stopped_at world_stop reason true) (record st { stopped = true }) in
    let told : (stopped.paused_ms ≡ st.paused_ms) = emit-paused_ms _ _ in
    let over = pause_loop-deadline (deadline_from now st) depth now arrivals (omega arith) a in
    let spent = ((pause_loop (deadline_from now st) depth now arrivals).0 - now) / 1000 in
    let banked : DebugState = record (add_paused spent stopped) { stopped = false } in
    (
      enter_pause-IsThawed now depth reason arrivals st hl h,
      rw (h, enter_pause, add_paused)
          (emit-events (continued world_stop true) banked (emit-listening _ _ ∙ n)
            ∙ ap (λ es. es ++ continued world_stop true ∷ []) (emit-events _ _ n)
            ∙ append_assoc st.events (stopped_at world_stop reason true ∷ []) _),
      rw (h, enter_pause, add_paused)
          (omega (arith, told, over, emit-paused_ms (continued world_stop true) banked)),
    )
