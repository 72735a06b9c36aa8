-- ===== src/Debugger/Parked.antt =====
-- src/core/scripting/debugger/parked.rs, with the dispatch context of mod.rs: dispatches suspended at
-- a breakpoint. What Lua does when a dispatch is resumed is an argument, and so is an instant.
pub mod Collector
pub mod All
use oxigeon.Base.{
  ℕ, zero, suc, ◌+◌, ◌-◌, ◌*◌, ◌/◌, Bool, true, false, not, ◌&&◌, ◌||◌, List, [], ◌∷◌, ◌++◌, Option,
  none, some, ◌==◌, ltb, leb, if◌then◌else◌, Bytes, length,
}
use oxigeon.Debugger.State.{ResumeKind, continue_on, ParkedStop, continued, DebugState, covers}
use oxigeon.Debugger.State.Operations.{unpark, parked_stop, emit, add_paused}
use oxigeon.Debugger.Hook.{HookLocal, arm_step}
use oxigeon.Debugger.Hook.Events.{World, end_dispatch}

pub record ParkedDispatch : Type 0 where
  pub id : ℕ
  pub session : Bytes
  pub verb : Bytes
  pub system : Bool
  pub thread : ℕ

pub data Request : Type 0 where
  inspects : Request
  resumes : ℕ → ResumeKind → Request
  detaches : Request

-- What is set around a dispatch: whether it is traced, whose it is, and its name.
pub record Context : Type 0 where
  pub traced : Bool
  pub session : Option Bytes
  pub label : Bytes

-- The Lua thread: the requests that wait in the channel, the captures that were released, and
-- whether the collector is held off.
pub record Engine : Type 0 where
  pub world : World
  pub parked : List ParkedDispatch
  pub gc_held : Bool
  pub released : List ℕ
  pub requests : List Request
  pub context : Context

pub data Resumed : Type 0 where
  finished suspended failed : Resumed

abbrev pub is_nil {ℓ} : {A : Type ℓ} → List A → Bool
is_nil [] = true
is_nil (_ ∷ _) = false

unfoldable pub hold_collector : Engine → Engine
hold_collector e = record e { gc_held = not (is_nil e.parked) }

-- `parked::park`
unfoldable pub park_dispatch : ParkedDispatch → Engine → Engine
unfolding hold_collector
park_dispatch entry e = hold_collector (record e { parked = e.parked ++ entry ∷ [] })

unfoldable pub set_dispatch_context : Option Bytes → Bytes → Engine → Engine
unfolding covers
set_dispatch_context session label e = record e {
  context = record {
    traced = e.world.state.armed && covers e.world.state.cfg session;
    session = session;
    label = label;
  };
}

-- `position`, and then `remove`.
unfoldable pub take_out : ℕ → List ParkedDispatch → Option (ParkedDispatch × List ParkedDispatch)
take_out stop [] = none
take_out stop (d ∷ ds) =
    let later = take_out stop ds in
    if d.id == stop
    then some (d, ds)
    else elim later [ none ↦ none | some (x, rest) ↦ some (x, d ∷ rest) ]

-- The stop is taken out of the registry: its time is banked and its capture released.
abbrev pub banked : ℕ → ParkedStop → Engine → Engine
banked now p e = record e {
  world = record e.world { state = add_paused ((now - p.since) / 1000) e.world.state };
  released = e.released ++ p.capture ∷ [];
}

unfoldable pub taken_back : ℕ → ℕ → Engine → Engine × ℕ
unfolding unpark add_paused
taken_back now stop e =
    let (st, found) = unpark stop e.world.state in
    let e' : Engine = record e { world = record e.world { state = st } } in
    elim found [ none ↦ (e', 0) | some p ↦ (banked now p e', p.depth) ]

abbrev session_of : Bytes → Option Bytes
session_of [] = none
session_of (c ∷ cs) = some (c ∷ cs)

abbrev armed_with : Option ResumeKind → ℕ → HookLocal → HookLocal
armed_with none depth hl = hl
armed_with (some kind) depth hl = arm_step kind depth hl

-- What is done before the dispatch runs on.
unfoldable pub prepared : ℕ → ℕ → Option ResumeKind → ParkedDispatch → Engine → Engine
unfolding taken_back arm_step emit set_dispatch_context
prepared now stop kind entry e =
    let (e', depth) = taken_back now stop e in
    let world : World = record {
      state = emit (continued stop false) e'.world.state;
      local = armed_with kind depth e'.world.local;
      rings = e'.world.rings;
    } in
    set_dispatch_context (session_of entry.session) entry.verb (record e' { world = world })

abbrev pub new_id : Option ℕ → ParkedDispatch → ParkedDispatch
new_id none entry = entry
new_id (some id) entry = record entry { id = id }

-- What is done when it has stopped running.
unfoldable pub settled : ℕ → ParkedDispatch → Engine → Resumed → Engine
unfolding park_dispatch end_dispatch hold_collector set_dispatch_context
settled now entry e suspended =
    park_dispatch (new_id e.world.local.parked_id entry)
      (record e { world = record e.world { local = record e.world.local { parked_id = none } } })
settled now entry e finished =
    set_dispatch_context none []
      (hold_collector (record e { world = end_dispatch now entry.session entry.verb e.world }))
settled now entry e failed = set_dispatch_context none [] (hold_collector e)

-- `run_thread` is `entry.thread.resume`, with the hook's changes, and what becomes of the thread.
module _ (run_thread : ParkedDispatch → World → World × Resumed) where
  unfoldable pub resume : ℕ → ℕ → Option ResumeKind → Engine → Engine
  unfolding take_out prepared settled
  resume now stop kind e = elim (take_out stop e.parked) [
    | none ↦ e
    | some (entry, rest) ↦
        let e' = prepared now stop kind entry (record e { parked = rest }) in
        let (w, resumed) = run_thread entry e'.world in
        settled now entry (record e' { world = w }) resumed
  ]

  abbrev pub last_id : List ParkedDispatch → Option ℕ
  last_id [] = none
  last_id (d ∷ []) = some d.id
  last_id (d ∷ ds) = last_id ds

  -- The loop on fuel; one turn for each that is parked suffices.
  unfoldable pub resume_on : ℕ → ℕ → Engine → Engine
  unfolding resume
  resume_on zero now e = e
  resume_on (suc fuel) now e = elim (last_id e.parked) [
    | none ↦ e
    | some id ↦
        let e' = resume now id (some continue_on) e in
        let rest = resume_on fuel now e' in
        if leb (length e.parked) (length e'.parked) then e' else rest
  ]

  unfoldable pub resume_all : ℕ → Engine → Engine
  unfolding resume_on
  resume_all now e = resume_on (length e.parked) now e

  -- The requests one after another, up to the first that resumes.
  unfoldable pub serve_from : ℕ → List Request → Engine → Engine
  unfolding resume resume_all
  serve_from now [] e = record e { requests = [] }
  serve_from now (inspects ∷ rest) e = serve_from now rest e
  serve_from now (resumes stop kind ∷ rest) e =
      resume now stop (some kind) (record e { requests = rest })
  serve_from now (detaches ∷ rest) e = resume_all now (record e { requests = rest })

  unfoldable pub serve : ℕ → Engine → Engine
  unfolding serve_from
  serve now e = if e.world.local.vm_rx then serve_from now e.requests e else e

  abbrev pub overdue : ℕ → DebugState → ParkedDispatch → Bool
  overdue now st d = elim (parked_stop d.id st) [
    | none ↦ false
    | some p ↦ leb (st.auto_continue * 1000) (now - p.since)
  ]

  abbrev pub any_overdue : ℕ → DebugState → List ParkedDispatch → Bool
  any_overdue now st [] = false
  any_overdue now st (d ∷ ds) = overdue now st d || any_overdue now st ds

  unfoldable pub auto_continue : ℕ → Engine → Engine
  unfolding resume_all
  auto_continue now e = if any_overdue now e.world.state e.parked then resume_all now e else e
