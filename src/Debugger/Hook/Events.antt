-- ===== src/Debugger/Hook/Events.antt =====
-- src/core/scripting/debugger/hook.rs: the hook callback, and the calls around a dispatch. The hook is
-- not entered while it runs, so that its state is there to borrow.
use oxigeon.Base.{
  ℕ, ◌+◌, ◌-◌, ◌%◌, ◌^◌, Bool, true, false, not, ◌&&◌, ◌||◌, List, ◌++◌, Option, none, some, ◌==◌,
  ltb, if◌then◌else◌, Bytes,
}
use oxigeon.Base.Utf8.{ascii}
use oxigeon.Debugger.Rings.{TraceKind, call, ret, line, Rings, push_record, push_timing}
use oxigeon.Debugger.State.{
  TraceMode, lines, wants_any, StopReason, at_breakpoint, after_step, on_pause, DebugState,
}
use oxigeon.Debugger.Hook.{
  HookLocal, StepState, no_step, refresh, reset_counters, bounded_depth, step_satisfied, Vm, Frame,
  BpOutcome, pass, stop, log, emit_logpoint, saturating,
}
use oxigeon.Debugger.Hook.Breakpoints
use oxigeon.Debugger.Hook.Stops.{Arrival, enter_pause, Suspended, park_and_yield}

pub data DebugEvent : Type 0 where
  on_call on_tail_call on_ret on_line on_count on_other : DebugEvent

pub data VmState : Type 0 where
  goes_on yields : VmState
  raises : Bytes → VmState

-- All that the hook may change.
pub record World : Type 0 where
  pub state : DebugState
  pub local : HookLocal
  pub rings : Rings

-- What an event comes with: whether this dispatch is traced, what the VM answers, the frame and its
-- name, whether the code can be suspended here and what is captured of it, and what the client
-- will ask while the world is stopped.
pub record Occasion : Type 0 where
  pub event : DebugEvent
  pub now : ℕ
  pub traced : Bool
  pub vm : Vm
  pub frame : Frame
  pub name : Option Bytes
  pub can_yield : Bool
  pub taken : Suspended
  pub arrivals : List (ℕ × Arrival)

abbrev pub is_count : DebugEvent → Bool
is_count on_count = true
is_count _ = false

abbrev pub charged : Bool → DebugState → HookLocal → HookLocal
charged counts st hl =
    if counts
    then record hl {
      instr_used =
          if ltb (hl.instr_used + st.instruction_step) (2 ^ 64)
          then hl.instr_used + st.instruction_step
          else 2 ^ 64 - 1;
    }
    else hl

-- A tail call enters a frame, except under LuaJIT, where its event tells of a return.
unfoldable pub kind_of : Bool → DebugEvent → Option TraceKind
kind_of luajit on_call = some call
kind_of luajit on_tail_call = if luajit then some ret else some call
kind_of luajit on_ret = some ret
kind_of luajit on_line = some line
kind_of luajit _ = none

abbrev base_or : ℕ → Option ℕ → ℕ
base_or depth none = depth - 1
base_or depth (some base) = base

abbrev pub max : ℕ → ℕ → ℕ
max a b = if ltb a b then b else a

abbrev pub called : ℕ → HookLocal → HookLocal
called depth hl =
    let base = base_or depth hl.base_depth in
    record hl {
      calls = saturating 32 hl.calls;
      base_depth = some base;
      depth = depth - base;
      max_depth = max hl.max_depth (depth - base);
    }

unfoldable pub counted : TraceKind → ℕ → HookLocal → HookLocal
counted call depth hl = called depth hl
counted ret depth hl = record hl { depth = hl.depth - 1 }
counted line depth hl = record hl { lines = saturating 32 hl.lines }

abbrev pub is_line : TraceKind → Bool
is_line line = true
is_line _ = false

abbrev pub is_step : StepState → Bool
is_step no_step = false
is_step _ = true

abbrev pub is_lines : TraceMode → Bool
is_lines lines = true
is_lines _ = false

abbrev or_zero : Option ℕ → ℕ
or_zero none = 0
or_zero (some n) = n % 2 ^ 32

abbrev source_of : Frame → Bytes
source_of frame =
    if frame.is_c then ascii "[C]" else elim frame.chunk [ none ↦ ascii "?" | some c ↦ c ]

abbrev pub least : ℕ → ℕ → ℕ
least a b = if ltb a b then a else b

unfoldable pub recorded : Occasion → TraceKind → World → World
unfolding push_record
recorded o kind w = record w {
  rings =
      push_record
        (record {
          kind = kind;
          depth = w.local.depth;
          src = source_of o.frame;
          line = if o.frame.is_c then 0 else or_zero o.frame.current_line;
          name = o.name;
          micros = least (o.now - w.local.t0) (2 ^ 32 - 1);
        })
        w.rings;
}

module _ (luajit : Bool) (fold : Bytes → Bytes) (print : ℕ → Bytes) where
  unfoldable pub outcome :
      DebugState × HookLocal × BpOutcome → DebugState × HookLocal × Option StopReason
  unfolding emit_logpoint
  outcome (st, hl, stop) = (st, hl, some at_breakpoint)
  outcome (st, hl, log text) = let (st', hl') = emit_logpoint st hl text in (st', hl', none)
  outcome (st, hl, pass) = (st, hl, none)

  -- Whether a line event stops, and why.
  unfoldable pub stop_for :
      Occasion → DebugState → HookLocal → DebugState × HookLocal × Option StopReason
  unfolding step_satisfied Breakpoints.at_breakpoint outcome
  stop_for o st hl =
      let st' = record st { pause_req = false } in
      if st.pause_req
      then (st', hl, some on_pause)
      else if is_step hl.step && step_satisfied (bounded_depth o.vm.levels) hl.step
      then (st', hl, some after_step)
      else if ltb 0 st.bp_count
      then outcome (Breakpoints.at_breakpoint fold print o.vm o.frame st' hl)
      else (st', hl, none)

  -- The dispatch is suspended, or the world stops, for a reason. The Boolean says which.
  unfoldable pub halted : Occasion → StopReason → World → World × Bool
  unfolding park_and_yield enter_pause
  halted o reason w =
      let depth = bounded_depth o.vm.levels in
      if not luajit && (not w.state.stop_the_world && o.can_yield)
      then (let (st, hl) = park_and_yield o.now depth reason o.taken w.state w.local in
          (record w { state = st; local = hl }, true))
      else (let (st, hl) = enter_pause o.now depth reason o.arrivals w.state w.local in
          (record w { state = st; local = hl }, false))

  unfoldable pub stopped : Occasion → World → World × Bool
  unfolding stop_for halted
  stopped o w =
      let (st, hl, reason) = stop_for o w.state w.local in
      let w' : World = record w { state = st; local = hl } in
      elim reason [ none ↦ (w', false) | some r ↦ halted o r w' ]

  -- The end of the callback: the event is recorded if it is to be.
  unfoldable pub traced : Occasion → TraceKind → World → World
  unfolding recorded
  traced o kind w =
      if not o.traced || not w.state.want.trace
      then w
      else if is_line kind && not (is_lines w.local.mode)
      then w
      else recorded o kind w

  -- An event that is of interest, to a client or to a trace.
  unfoldable pub observed : Occasion → Bool → World → World × VmState
  unfolding refresh kind_of counted stopped traced
  observed o debugging w =
      let hl = refresh w.state w.local in
      elim (kind_of luajit o.event) [
        | none ↦ (record w { local = hl }, goes_on)
        | some kind ↦
            let w' : World = record w { local = counted kind (bounded_depth o.vm.levels) hl } in
            if is_line kind && debugging
            then (let (w'', suspended) = stopped o w' in
                if suspended then (w'', yields) else (traced o kind w'', goes_on))
            else (traced o kind w', goes_on)
      ]

  -- Behind the budget.
  unfoldable pub watched : Occasion → World → World × VmState
  unfolding observed
  watched o w =
      if is_count o.event
      then (w, goes_on)
      else (let debugging = ltb 0 w.state.clients in
          if not debugging && not o.traced then (w, goes_on) else observed o debugging w)

  unfoldable pub limit_text : ℕ → Bytes
  limit_text limit =
      ascii "instruction limit exceeded ("
      ++ (print limit ++ ascii " instructions in one dispatch)")

  unfoldable pub on_event : Occasion → World → World × VmState
  unfolding watched limit_text
  on_event o w =
      if not w.state.armed || not (wants_any w.state.want)
      then (w, goes_on)
      else if w.state.want.budget && (w.state.clients == 0)
      then (let w' : World = record w { local = charged (is_count o.event) w.state w.local } in
          if ltb w.state.instruction_limit w'.local.instr_used
          then (w', raises (limit_text w.state.instruction_limit))
          else watched o w')
      else watched o w

unfoldable pub begin_budget : World → World
begin_budget w = record w { local = record w.local { instr_used = 0 } }

unfoldable begin_dispatch : ℕ → World → World
unfolding reset_counters
begin_dispatch now w = record w { local = reset_counters now w.local }

unfoldable pub end_dispatch : ℕ → Bytes → Bytes → World → World
unfolding push_timing
end_dispatch now session verb w = record w {
  rings =
      push_timing
        (record {
          session = session;
          verb = verb;
          micros = least (now - w.local.t0) (2 ^ 64 - 1);
          lines = w.local.lines;
          calls = w.local.calls;
          max_depth = w.local.max_depth;
        })
        w.rings;
}
