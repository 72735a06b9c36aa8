-- ===== src/Debugger/Hook.antt =====
-- src/core/scripting/debugger/hook.rs: the state of the hook, and breakpoints. What the hook learns
-- from the VM comes as an argument: the frame that an event is about, how deep the stack is, and what
-- an expression evaluates to there. A text is the list of the codes of its characters.
pub mod Breakpoints
pub mod Stops
pub mod Events
pub mod Reports
pub mod Budget
pub mod Frozen
pub mod Thaw
use oxigeon.Base.{
  ℕ, zero, suc, ◌+◌, ◌-◌, ◌%◌, ◌^◌, Bool, true, false, not, ◌&&◌, ◌||◌, List, [], ◌∷◌, ◌++◌, Option,
  none, some, ◌==◌, ltb, leb, if◌then◌else◌, Bytes, length,
}
use oxigeon.Base.Utf8.{ascii}
use oxigeon.Base.Keyed.{find, remove}
use oxigeon.Telnet.Mxp.State.{equals}
use oxigeon.Debugger.Paths.{chunk_key, short}
use oxigeon.Debugger.State.{
  Want, nothing, TraceMode, off, StopReason, ResumeKind, continue_on, next_line, step_in, step_out,
  BreakpointSpec, is_plain, Lines, BreakpointTable, DebugEventMsg, output, DebugState,
}
use oxigeon.Debugger.State.Operations.{emit}

pub data StepState : Type 0 where
  no_step in_step : StepState
  over_step out_step : ℕ → StepState

-- `t0` is an instant; `vm_rx` says whether the channel of requests is held; the table of interned
-- names is left out, since an interned name is the name.
pub record HookLocal : Type 0 where
  pub gen_seen : ℕ
  pub mode : TraceMode
  pub wants : Want
  pub depth : ℕ
  pub base_depth : Option ℕ
  pub t0 : ℕ
  pub lines : ℕ
  pub calls : ℕ
  pub max_depth : ℕ
  pub bps : List (Bytes × Lines)
  pub hits : List ((Bytes × ℕ) × ℕ)
  pub last_src : Option (Bytes × Option Bytes)
  pub step : StepState
  pub parked_id : Option ℕ
  pub logpoints : ℕ
  pub vm_rx : Bool
  pub instr_used : ℕ

abbrev pub new : ℕ → HookLocal
new now = record {
  gen_seen = 2 ^ 64 - 1;
  mode = off;
  wants = nothing;
  depth = 0;
  base_depth = none;
  t0 = now;
  lines = 0;
  calls = 0;
  max_depth = 0;
  bps = [];
  hits = [];
  last_src = none;
  step = no_step;
  parked_id = none;
  logpoints = 0;
  vm_rx = false;
  instr_used = 0;
}

unfoldable pub refresh : DebugState → HookLocal → HookLocal
refresh st hl = if st.generation == hl.gen_seen then hl else record hl {
  gen_seen = st.generation;
  mode = st.cfg.mode;
  wants = st.want;
  bps = st.breakpoints.by_file;
  hits = [];
  last_src = none;
}

module _ (fold : Bytes → Bytes) where
  unfoldable pub looked_up : Bytes → HookLocal → HookLocal × Option Bytes
  unfolding chunk_key
  looked_up chunk hl =
      (record hl { last_src = some (chunk, chunk_key fold chunk) }, chunk_key fold chunk)

  unfoldable pub key_for : Bytes → HookLocal → HookLocal × Option Bytes
  unfolding looked_up
  key_for chunk hl = elim hl.last_src [
    | none ↦ looked_up chunk hl
    | some (cached, key) ↦ if equals cached chunk then (hl, key) else looked_up chunk hl
  ]

unfoldable pub reset_counters : ℕ → HookLocal → HookLocal
reset_counters now hl = record hl {
  t0 = now;
  lines = 0;
  calls = 0;
  depth = 0;
  base_depth = none;
  max_depth = 0;
  logpoints = 0;
}

-- The stack is walked no further than 256 levels.
abbrev pub bounded_depth : ℕ → ℕ
bounded_depth levels = if ltb levels 256 then levels else 256

unfoldable pub step_satisfied : ℕ → StepState → Bool
step_satisfied stack no_step = false
step_satisfied stack in_step = true
step_satisfied stack (over_step d) = leb stack d
step_satisfied stack (out_step d) = ltb stack d

abbrev pub step_of : ResumeKind → ℕ → StepState
step_of continue_on depth = no_step
step_of step_in depth = in_step
step_of next_line depth = over_step depth
step_of step_out depth = out_step depth

-- `arm_step`
unfoldable pub arm_step : ResumeKind → ℕ → HookLocal → HookLocal
arm_step kind depth hl = record hl { step = step_of kind depth }

pub data BpOutcome : Type 0 where
  pass stop : BpOutcome
  log : Bytes → BpOutcome

pub data Condition : Type 0 where
  met not_met : Condition
  condition_failed : Bytes → Condition

pub data Evaluated : Type 0 where
  value : Bytes → Evaluated
  evaluation_failed : Bytes → Evaluated

-- The VM at an event: how many levels the stack has, and what expressions come to in its top frame.
pub record Vm : Type 0 where
  pub levels : ℕ
  pub eval_condition : Bytes → Condition
  pub evaluate : Bytes → Evaluated

-- The frame of an event: whether it is of a C function, its chunk and its line.
pub record Frame : Type 0 where
  pub is_c : Bool
  pub chunk : Option Bytes
  pub current_line : Option ℕ

abbrev pub saturating : ℕ → ℕ → ℕ
saturating w n = if ltb n (2 ^ w - 1) then n + 1 else 2 ^ w - 1

abbrev max_logpoints : ℕ
max_logpoints = 200

abbrev pub limit_note : Bytes
limit_note = ascii "\r\n[logpoint limit of 200 reached for this dispatch; further lines suppressed]"

unfoldable pub emit_logpoint : DebugState → HookLocal → Bytes → DebugState × HookLocal
unfolding emit
emit_logpoint st hl text =
    let n = saturating 32 hl.logpoints in
    let hl' = record hl { logpoints = n } in
    if ltb n max_logpoints
    then (emit (output text false) st, hl')
    else if n == max_logpoints
    then (emit (output (text ++ limit_note) true) st, hl')
    else (st, hl')
