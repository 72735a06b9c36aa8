-- ===== src/Debugger/State/Operations.antt =====
-- src/core/scripting/debugger/state.rs: the operations on the shared state.
use oxigeon.Base.{
  ℕ, ◌+◌, ◌*◌, ◌%◌, ◌^◌, Bool, true, false, ◌||◌, List, [], ◌∷◌, ◌++◌, Option, ◌==◌, ltb,
  if◌then◌else◌, Bytes, length,
}
use oxigeon.Base.Keyed.{find, remove}
use oxigeon.Telnet.Mxp.State.{equals}
use oxigeon.Debugger.State
use oxigeon.Debugger.State.{
  Want, nothing, wants_any, TraceConfig, off, config_wants, BreakpointSpec, Lines, BreakpointTable,
  ParkedStop, DebugEventMsg, DebugState,
}

abbrev pub new : DebugState
new = record {
  armed = false;
  want = nothing;
  generation = 0;
  bp_count = 0;
  clients = 0;
  stopped = false;
  pause_req = false;
  stop_the_world = true;
  parked = [];
  parked_count = 0;
  next_stop = 2;
  paused_ms = 0;
  cfg = record { mode = off; all_sessions = false; sessions = [] };
  breakpoints = record { by_file = []; next_id = 0 };
  listening = false;
  events = [];
  instruction_limit = 0;
  instruction_step = State.instruction_step 0;
  auto_continue = 300000;
  debug_library = false;
}

-- What is wanted, of every input that feeds it.
unfoldable pub wanted : DebugState → Want
unfolding config_wants
wanted st =
    let w = config_wants st.cfg in
    record w {
      breaks = w.breaks || ltb 0 st.clients;
      budget = w.budget || ltb 0 st.instruction_limit;
    }

-- The second half of `republish`, which stores what the first has computed.
abbrev pub stored : Want → DebugState → DebugState
stored w st = record st { want = w; armed = wants_any w; generation = (st.generation + 1) % 2 ^ 64 }

unfoldable pub republish : DebugState → DebugState
unfolding wanted
republish st = stored (wanted st) st

-- `[servers.debug]`, as far as the state takes it up.
pub record DebugServerConfig : Type 0 where
  pub enabled : Bool
  pub stop_the_world : Bool
  pub auto_continue_secs : ℕ

unfoldable pub from_config : DebugServerConfig → ℕ → DebugState
unfolding State.instruction_step republish
from_config cfg limit = republish (record new {
  debug_library = cfg.enabled;
  stop_the_world = cfg.stop_the_world;
  instruction_limit = limit;
  instruction_step = State.instruction_step limit;
  auto_continue = if cfg.auto_continue_secs == 0 then 86400000 else cfg.auto_continue_secs * 1000;
})

unfoldable pub set_trace_config : TraceConfig → DebugState → DebugState
unfolding republish
set_trace_config cfg st = republish (record st { cfg = cfg })

unfoldable update_trace_config : (TraceConfig → TraceConfig) → DebugState → DebugState
unfolding set_trace_config
update_trace_config f st = set_trace_config (f st.cfg) st

-- `iter().cloned().collect()`: of two on one line, the later one stays.
unfoldable collect_lines : List (ℕ × BreakpointSpec) → Lines → Lines
collect_lines [] m = m
collect_lines ((line, spec) ∷ rest) m = collect_lines rest ((line, spec) ∷ remove line m)

abbrev ids_after : ℕ → List (ℕ × BreakpointSpec) → List ℕ
ids_after next [] = []
ids_after next (_ ∷ rest) = (next + 1) ∷ ids_after (next + 1) rest

abbrev remove_file : Bytes → List (Bytes × Lines) → List (Bytes × Lines)
remove_file file [] = []
remove_file file ((name, m) ∷ rest) =
    let left = remove_file file rest in if equals name file then left else (name, m) ∷ left

abbrev pub total_lines : List (Bytes × Lines) → ℕ
total_lines [] = 0
total_lines ((_, m) ∷ rest) = length m + total_lines rest

abbrev pub files_with :
    Bytes → List (ℕ × BreakpointSpec) → List (Bytes × Lines) → List (Bytes × Lines)
unfolding collect_lines
files_with file [] files = remove_file file files
files_with file (s ∷ specs) files = (file, collect_lines (s ∷ specs) []) ∷ remove_file file files

unfoldable pub set_breakpoints :
    Bytes → List (ℕ × BreakpointSpec) → DebugState → DebugState × List ℕ
unfolding republish collect_lines
set_breakpoints file specs st =
    let files = files_with file specs st.breakpoints.by_file in
    (
      republish (record st {
        breakpoints = record { by_file = files; next_id = st.breakpoints.next_id + length specs };
        bp_count = total_lines files;
      }),
      ids_after st.breakpoints.next_id specs,
    )

unfoldable pub clear_breakpoints : DebugState → DebugState
unfolding republish
clear_breakpoints st =
    republish (record st { breakpoints = record st.breakpoints { by_file = [] }; bp_count = 0 })

unfoldable pub next_stop_id : DebugState → DebugState × ℕ
next_stop_id st = (record st { next_stop = (st.next_stop + 1) % 2 ^ 64 }, st.next_stop)

-- A `BTreeMap` is kept in the order of its keys.
abbrev pub insert_stop : ℕ → ParkedStop → List (ℕ × ParkedStop) → List (ℕ × ParkedStop)
insert_stop id stop [] = (id, stop) ∷ []
insert_stop id stop ((k, s) ∷ rest) =
    let inserted = insert_stop id stop rest in
    if ltb id k
    then (id, stop) ∷ (k, s) ∷ rest
    else if id == k
    then (id, stop) ∷ rest
    else (k, s) ∷ inserted

unfoldable pub park : ℕ → ParkedStop → DebugState → DebugState
park id stop st =
    let parked = insert_stop id stop st.parked in
    record st { parked = parked; parked_count = length parked }

unfoldable pub unpark : ℕ → DebugState → DebugState × Option ParkedStop
unpark id st =
    let parked = remove id st.parked in
    (record st { parked = parked; parked_count = length parked }, find id st.parked)

abbrev pub parked_stop : ℕ → DebugState → Option ParkedStop
parked_stop id st = find id st.parked

unfoldable parked_list : List (ℕ × ParkedStop) → List (ℕ × Bytes × Bytes)
parked_list [] = []
parked_list ((id, p) ∷ rest) = (id, p.session, p.what) ∷ parked_list rest

unfoldable pub set_freezes : Bool → DebugState → DebugState × Bool
set_freezes on st = (record st { stop_the_world = on }, st.stop_the_world)

unfoldable pub emit : DebugEventMsg → DebugState → DebugState
emit msg st = if st.listening then record st { events = st.events ++ msg ∷ [] } else st

unfoldable pub add_paused : ℕ → DebugState → DebugState
add_paused elapsed st = record st { paused_ms = (st.paused_ms + elapsed) % 2 ^ 64 }

-- What the client's session does when it starts, when it attaches, when it asks for a pause, and
-- when it is over.
unfoldable pub connect : DebugState → DebugState
connect st = record st { listening = true; events = [] }

unfoldable pub attach : DebugState → DebugState
unfolding republish
attach st = republish (record st { clients = 1 })

unfoldable pub request_pause : DebugState → DebugState
request_pause st = record st { pause_req = true }

unfoldable pub detach : DebugState → DebugState
unfolding clear_breakpoints
detach st =
    let st' = clear_breakpoints (record st { clients = 0; pause_req = false }) in
    record st' { listening = false }
