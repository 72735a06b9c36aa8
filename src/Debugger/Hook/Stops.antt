-- ===== src/Debugger/Hook/Stops.antt =====
-- src/core/scripting/debugger/hook.rs: the two ways to stop. An instant is a count of microseconds.
use oxigeon.Base.{
  ℕ, ◌+◌, ◌-◌, ◌*◌, ◌/◌, true, false, List, [], ◌∷◌, Option, none, some, leb, if◌then◌else◌, Bytes,
}
use oxigeon.Debugger.State.{
  StopReason, ResumeKind, Frame, ParkedStop, stopped_at, continued, world_stop, DebugState,
}
use oxigeon.Debugger.State.Operations.{next_stop_id, park, emit, add_paused}
use oxigeon.Debugger.Hook.{HookLocal, StepState, no_step, step_of}

-- What the client asks. What it is told of stacks, scopes, variables and expressions is left out.
pub data VmRequest : Type 0 where
  stack_trace scopes variables evaluates detaches : VmRequest
  resumes : ResumeKind → VmRequest

-- What `recv_timeout` returns.
pub data Arrival : Type 0 where
  request : VmRequest → Arrival
  timed_out disconnected : Arrival

-- What an arrival at an instant does, if what is served goes on as given.
abbrev pub heard : ℕ → ℕ → Arrival → ℕ × StepState → ℕ × StepState
heard depth t (request (resumes kind)) served = (t, step_of kind depth)
heard depth t (request detaches) served = (t, no_step)
heard depth t disconnected served = (t, no_step)
heard depth t _ served = served

-- The loop, from an instant on, over what arrives and when: the instant at which it ends, and the
-- step that it is left with. When nothing more arrives, its last wait ends at the deadline.
unfoldable pub pause_loop : ℕ → ℕ → ℕ → List (ℕ × Arrival) → ℕ × StepState
pause_loop deadline depth now [] = (if leb deadline now then now else deadline, no_step)
pause_loop deadline depth now ((t, arrival) ∷ rest) =
    let served = pause_loop deadline depth t rest in
    if leb deadline now then (now, no_step) else heard depth t arrival served

-- `auto_continue` is in milliseconds.
abbrev pub deadline_from : ℕ → DebugState → ℕ
deadline_from now st = now + st.auto_continue * 1000

unfoldable pub enter_pause :
    ℕ → ℕ → StopReason → List (ℕ × Arrival) → DebugState → HookLocal → DebugState × HookLocal
unfolding emit pause_loop add_paused
enter_pause now depth reason arrivals st hl =
    if hl.vm_rx
    then (let stopped = emit (stopped_at world_stop reason true) (record st { stopped = true }) in
        let (over, step) = pause_loop (deadline_from now st) depth now arrivals in
        let banked = add_paused ((over - now) / 1000) stopped in
        (
          emit (continued world_stop true) (record banked { stopped = false }),
          record hl { step = step; vm_rx = true },
        ))
    else (st, hl)

-- What is taken of the dispatch before it is suspended.
pub record Suspended : Type 0 where
  pub frames : List Frame
  pub capture : ℕ
  pub session : Option Bytes
  pub label : Bytes

abbrev pub or_empty : Option Bytes → Bytes
or_empty none = []
or_empty (some s) = s

unfoldable pub park_and_yield :
    ℕ → ℕ → StopReason → Suspended → DebugState → HookLocal → DebugState × HookLocal
unfolding next_stop_id park emit
park_and_yield now depth reason taken st hl =
    let (st', id) = next_stop_id st in
    let stop : ParkedStop = record {
      session = or_empty taken.session;
      what = taken.label;
      reason = reason;
      frames = taken.frames;
      capture = taken.capture;
      depth = depth;
      since = now;
    } in
    (
      emit (stopped_at id reason false) (park id stop st'),
      record hl { parked_id = some id; step = no_step },
    )
