-- ===== src/Tests/Debugger.antt =====
-- Tests and witnesses for src/core/scripting/debugger.
use oxigeon.Base.{
  ℕ, ◌+◌, ◌≤◌, true, false, [], ◌∷◌, ◌++◌, none, some, ◌≡◌, refl, arith, length, ltb, leb,
  if◌then◌else◌, Bytes,
}
use oxigeon.Base.Utf8.{ascii}
use oxigeon.Debugger.Paths.{short}
use oxigeon.Debugger.State.{
  DebugState, BreakpointSpec, at_breakpoint, on_pause, continue_on, next_line, ParkedStop,
  stopped_at, continued, world_stop,
}
use oxigeon.Debugger.State.Operations.{DebugServerConfig}
use oxigeon.Debugger.State.Operations
use oxigeon.Debugger.State.Invariant.{clears_breakpoints, parks}
use oxigeon.Debugger.State.Invariant
use oxigeon.Debugger.Rings.{TraceRecord, line, Rings, push_all, recent}
use oxigeon.Debugger.Rings
use oxigeon.Debugger.Hook
use oxigeon.Debugger.Hook.{HookLocal, Vm, met, not_met, value, evaluation_failed, stop, pass}
use oxigeon.Debugger.Hook.Breakpoints.{render_log_message, at_line}
use oxigeon.Debugger.Hook.Stops.{request, resumes, stack_trace, enter_pause}
use oxigeon.Debugger.Hook.Events.{
  World, Occasion, on_line, on_count, on_event, raises, limit_text, begin_budget,
}
use oxigeon.Debugger.Hook.Reports.{reach, reach-stops}
use oxigeon.Debugger.Hook.Budget.{run_events, run_events-on_event}
use oxigeon.Debugger.Hook.Frozen.{IsThawed, enter_pause-bounded}
use oxigeon.Debugger.Hook.Thaw.{on_event-IsGoing}
use oxigeon.Debugger.Parked.{
  ParkedDispatch, Engine, Resumed, finished, suspended, resume_on, resume_all, auto_continue,
  take_out, inspects,
}
use oxigeon.Debugger.Parked.Collector
use oxigeon.Debugger.Parked.Collector.{IsHeld, run-IsHeld}
use oxigeon.Debugger.Parked.All.{resume_on-resume_all, resume_all-stops_again}

last_two : short (ascii "@C:/x/mudlib/cmds\\who.lua") ≡ ascii "cmds/who.lua"
unfolding short
last_two = refl

abbrev settings : DebugServerConfig
settings = record { enabled = true; stop_the_world = true; auto_continue_secs = 2 }

abbrev gate : ℕ → BreakpointSpec
gate n = record { condition = none; hit_condition = some n; log_message = none }

abbrev stop_here : ParkedStop
stop_here = record {
  session = ascii "7";
  what = ascii "kill";
  reason = at_breakpoint;
  frames = [];
  capture = 1;
  depth = 3;
  since = 0;
}

abbrev at : ℕ → TraceRecord
at n = record { kind = line; depth = 0; src = []; line = n; name = none; micros = 0 }

abbrev ring : Rings
ring = record Rings.default { trace_cap = 2; timing_cap = 1 }

abbrev same : Bytes → Bytes
same s = s

abbrev digits : ℕ → Bytes
digits n = n ∷ []

abbrev vm : Vm
vm = record {
  levels = 3;
  eval_condition = λ e. met;
  evaluate = λ e. if leb 2 (length e) then value (ascii "42") else evaluation_failed (ascii "nil");
}

-- An unmatched brace is a literal, an empty one too, and a failed expression says so.
rendered :
    render_log_message vm (ascii "hp {self.hp} {} {x} {open") ≡ ascii "hp 42 {} x=<nil> {open"
unfolding render_log_message
rendered = refl

abbrev file : Bytes
file = ascii "/a.lua"

abbrev state : DebugState
state = record Operations.new {
  armed = true;
  want = record Operations.new.want { breaks = true };
  clients = 1;
  listening = true;
  bp_count = 1;
  generation = 1;
  breakpoints = record { by_file = (file, (4, gate 2) ∷ []) ∷ []; next_id = 1 };
}

abbrev local : HookLocal
local = record (Hook.new 0) { bps = (file, (4, gate 2) ∷ []) ∷ []; vm_rx = true; gen_seen = 1 }

reach-stops_example :
    let (st', hl') = reach same digits vm file file 4 1 (state, local) in
    (at_line same digits vm file file 4 st' hl').2 ≡ stop
reach-stops_example = reach-stops same digits vm file file 4 2 1 state local refl refl (omega arith)

enter_pause-bounded_example :
    let (st', hl') =
      enter_pause 0 3 on_pause
        ((500000, request stack_trace) ∷ (1500000, request (resumes next_line)) ∷ [])
        state
        local in
    IsThawed st' hl'
    × (st'.events
        ≡ state.events ++ stopped_at world_stop on_pause true ∷ continued world_stop true ∷ [])
    × (st'.paused_ms ≤ 0 + 300000)
enter_pause-bounded_example =
    enter_pause-bounded 0 3 on_pause
      ((500000, request stack_trace) ∷ (1500000, request (resumes next_line)) ∷ []) state local refl
      (omega arith, (omega arith, tt)) (omega arith) refl

abbrev occasion : Occasion
occasion = record {
  event = on_line;
  now = 0;
  traced = true;
  vm = vm;
  frame = record { is_c = false; chunk = some (ascii "@/a.lua"); current_line = some 4 };
  name = none;
  can_yield = true;
  taken = record { frames = []; capture = 1; session = some (ascii "7"); label = ascii "kill" };
  arrivals = (1500000, request (resumes continue_on)) ∷ [];
}

abbrev world : World
world = record { state = state; local = local; rings = Rings.default }

on_event-IsGoing_example :
    let (w', verdict) = on_event false same digits occasion world in IsThawed w'.state w'.local
on_event-IsGoing_example = on_event-IsGoing false same digits occasion world (refl, refl)

-- The line is reached for the second time: the world stops for a second and a half, and goes on.
abbrev reached_once : World
reached_once = record world { local = record local { hits = ((file, 4), 1) ∷ [] } }

stopped_and_on : (on_event false same digits occasion reached_once).0.state.paused_ms ≡ 1500
unfolding on_event
stopped_and_on = refl

abbrev counting : World
counting = record world {
  state = record state {
    clients = 0;
    want = record state.want { budget = true };
    instruction_limit = 2500;
    instruction_step = 1000;
  };
}

abbrev count : Occasion
count = record occasion { event = on_count }

run_events-on_event_example :
    (on_event false same digits count
      (run_events false same digits (count ∷ occasion ∷ count ∷ []) (begin_budget counting))).1
    ≡ raises (limit_text false same digits 2500)
run_events-on_event_example =
    run_events-on_event false same digits (count ∷ occasion ∷ count ∷ []) count counting refl
      (refl, refl, refl) (omega arith)

abbrev dispatch : ℕ → ParkedDispatch
dispatch id = record {
  id = id;
  session = ascii "7";
  verb = ascii "kill";
  system = false;
  thread = id;
}

abbrev engine : Engine
engine = record {
  world = record world {
    state = record state {
      parked = (2, stop_here) ∷ (3, stop_here) ∷ [];
      parked_count = 2;
      auto_continue = 1000;
    };
  };
  parked = dispatch 2 ∷ dispatch 3 ∷ [];
  gc_held = true;
  released = [];
  requests = inspects ∷ [];
  context = record { traced = false; session = none; label = [] };
}

-- Every dispatch ends when it is resumed; the newest stops again.
abbrev all_end : ParkedDispatch → World → World × Resumed
all_end d w = (w, finished)

abbrev third_stops : ParkedDispatch → World → World × Resumed
third_stops d w = if ltb 2 d.thread then (w, suspended) else (w, finished)

run-IsHeld_example : IsHeld (
    Collector.run third_stops
      (Collector.parks (dispatch 4) ∷ Collector.serves 5 ∷ Collector.continues 9000000 ∷ [])
      engine)
run-IsHeld_example =
    run-IsHeld third_stops
      (Collector.parks (dispatch 4) ∷ Collector.serves 5 ∷ Collector.continues 9000000 ∷ []) engine
      refl

resume_on-resume_all_example : resume_on all_end 7 10 engine ≡ resume_all all_end 10 engine
resume_on-resume_all_example = resume_on-resume_all all_end 7 10 engine (omega arith)

-- Two stops that are both suspended for ten seconds bank twenty.
banked_twice : (resume_all all_end 10000000 engine).world.state.paused_ms ≡ 20000
unfolding resume_all
banked_twice = refl

-- The older one is overdue, and is not resumed.
older_left : (auto_continue third_stops 9000000 engine).parked ≡ dispatch 2 ∷ dispatch 3 ∷ []
unfolding auto_continue
older_left = refl

resume_all-stops_again_example :
    (again : ParkedDispatch) × ((resume_all third_stops 10 engine).parked ≡ dispatch 2 ∷ again ∷ [])
    × (again.thread ≡ 3)
unfolding take_out
resume_all-stops_again_example =
    resume_all-stops_again third_stops 10 engine (dispatch 2 ∷ []) (dispatch 3) refl refl
      (λ w. refl)
