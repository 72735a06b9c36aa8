-- ===== src/Debugger/State.antt =====
-- src/core/scripting/debugger/state.rs: the state that the Lua thread shares with a debug client.
-- `want` is the set of its bits; an atomic is its value; a duration is a count of milliseconds. An
-- operation is one step, though the Lua thread and the task of the client each call `republish`, which
-- computes what is wanted and then stores it, without a common lock; Wanted has the two halves
-- apart as well.
pub mod Operations
pub mod Wanted
pub mod Invariant
use oxigeon.Base.{
  ℕ, zero, suc, ◌+◌, ◌*◌, ◌/◌, ◌%◌, ◌^◌, Bool, true, false, not, ◌&&◌, ◌||◌, List, [], ◌∷◌, ◌++◌,
  Option, none, some, ◌==◌, ltb, leb, if◌then◌else◌, Bytes, length,
}
use oxigeon.Base.Utf8.{ascii}
use oxigeon.Base.Keyed.{find, remove}
use oxigeon.Telnet.Mxp.State.{equals, member}

pub record Want : Type 0 where
  pub trace : Bool
  pub timing : Bool
  pub breaks : Bool
  pub steps : Bool
  pub budget : Bool

abbrev pub nothing : Want
nothing = record { trace = false; timing = false; breaks = false; steps = false; budget = false }

-- `wants != 0`
abbrev pub wants_any : Want → Bool
wants_any w = w.trace || (w.timing || (w.breaks || (w.steps || w.budget)))

-- `NEEDS_EVENTS`
abbrev needs_events : Want → Bool
needs_events w = w.trace || (w.timing || (w.breaks || w.steps))

pub data TraceMode : Type 0 where
  off timing_only calls lines : TraceMode

abbrev parse_mode : Bytes → Option TraceMode
parse_mode s =
    if equals s (ascii "off")
    then some off
    else if equals s (ascii "time") || equals s (ascii "timing")
    then some timing_only
    else if equals s (ascii "call") || (equals s (ascii "calls") || equals s (ascii "on"))
    then some calls
    else if equals s (ascii "line") || equals s (ascii "lines")
    then some lines
    else none

abbrev pub mode_name : TraceMode → Bytes
mode_name off = ascii "off"
mode_name timing_only = ascii "time"
mode_name calls = ascii "calls"
mode_name lines = ascii "lines"

abbrev pub mode_wants : TraceMode → Want
mode_wants off = nothing
mode_wants timing_only = record nothing { timing = true }
mode_wants calls = record nothing { timing = true; trace = true }
mode_wants lines = record nothing { timing = true; trace = true }

pub record TraceConfig : Type 0 where
  pub mode : TraceMode
  pub all_sessions : Bool
  pub sessions : List Bytes

abbrev pub is_off : TraceMode → Bool
is_off off = true
is_off _ = false

unfoldable pub covers : TraceConfig → Option Bytes → Bool
covers cfg session =
    if is_off cfg.mode
    then false
    else if cfg.all_sessions
    then true
    else elim session [ none ↦ false | some s ↦ member s cfg.sessions ]

abbrev is_empty {ℓ} : {A : Type ℓ} → List A → Bool
is_empty [] = true
is_empty (_ ∷ _) = false

unfoldable pub config_wants : TraceConfig → Want
config_wants cfg =
    if cfg.all_sessions || not (is_empty cfg.sessions) then mode_wants cfg.mode else nothing

pub data StopReason : Type 0 where
  at_breakpoint after_step on_pause : StopReason

pub data ResumeKind : Type 0 where
  continue_on next_line step_in step_out : ResumeKind

pub record Frame : Type 0 where
  pub id : ℕ
  pub name : Bytes
  pub path : Option Bytes
  pub line : ℕ

pub record BreakpointSpec : Type 0 where
  pub condition : Option Bytes
  pub hit_condition : Option ℕ
  pub log_message : Option Bytes

abbrev is_none {ℓ} : {A : Type ℓ} → Option A → Bool
is_none none = true
is_none (some _) = false

abbrev pub is_plain : BreakpointSpec → Bool
is_plain spec = is_none spec.condition && (is_none spec.hit_condition && is_none spec.log_message)

pub record ParkedStop : Type 0 where
  pub session : Bytes
  pub what : Bytes
  pub reason : StopReason
  pub frames : List Frame
  pub capture : ℕ
  pub depth : ℕ
  pub since : ℕ

pub data DebugEventMsg : Type 0 where
  stopped_at : ℕ → StopReason → Bool → DebugEventMsg
  continued : ℕ → Bool → DebugEventMsg
  output : Bytes → Bool → DebugEventMsg

-- The map of a file: its lines and what stands on them.
abbrev pub Lines : Type 0
Lines = List (ℕ × BreakpointSpec)

pub record BreakpointTable : Type 0 where
  pub by_file : List (Bytes × Lines)
  pub next_id : ℕ

abbrev pub world_stop : ℕ
world_stop = 1

-- `events` is what was sent to the client, `listening` whether there is one to send to.
pub record DebugState : Type 0 where
  pub armed : Bool
  pub want : Want
  pub generation : ℕ
  pub bp_count : ℕ
  pub clients : ℕ
  pub stopped : Bool
  pub pause_req : Bool
  pub stop_the_world : Bool
  pub parked : List (ℕ × ParkedStop)
  pub parked_count : ℕ
  pub next_stop : ℕ
  pub paused_ms : ℕ
  pub cfg : TraceConfig
  pub breakpoints : BreakpointTable
  pub listening : Bool
  pub events : List DebugEventMsg
  pub instruction_limit : ℕ
  pub instruction_step : ℕ
  pub auto_continue : ℕ
  pub debug_library : Bool

-- `clamp(1_000, 1_000_000)`
unfoldable pub instruction_step : ℕ → ℕ
instruction_step limit =
    if ltb (limit / 10) 1000 then 1000 else if ltb 1000000 (limit / 10) then 1000000 else limit / 10
