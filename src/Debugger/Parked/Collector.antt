-- ===== src/Debugger/Parked/Collector.antt =====
-- src/core/scripting/debugger/parked.rs: the collector is held off as long as anything is suspended,
-- and which dispatches are resumed.
use oxigeon.Base.{
  ℕ, zero, suc, Bool, true, false, not, List, [], ◌∷◌, ◌++◌, Option, some, leb, if◌then◌else◌,
  length, ◌≡◌, refl, Bool-cases, Option-cases, inl, inr,
}
use oxigeon.Debugger.State.{ResumeKind, continue_on}
use oxigeon.Debugger.Hook.Events.{World}
use oxigeon.Debugger.Parked.{
  ParkedDispatch, Request, inspects, resumes, detaches, Engine, Resumed, finished, suspended,
  failed, is_nil, hold_collector, park_dispatch, take_out, prepared, settled, resume, last_id,
  resume_on, resume_all, serve_from, serve, any_overdue, auto_continue,
}

abbrev pub IsHeld : Engine → Type 0
IsHeld e = e.gc_held ≡ not (is_nil e.parked)

pub data Call : Type 0 where
  parks : ParkedDispatch → Call
  serves : ℕ → Call
  continues : ℕ → Call
  asks : List Request → Call

settled-IsHeld :
    (now : ℕ) (entry : ParkedDispatch) (e : Engine) (r : Resumed) → IsHeld (settled now entry e r)
unfolding settled hold_collector park_dispatch
settled-IsHeld now entry e finished = refl
settled-IsHeld now entry e suspended = refl
settled-IsHeld now entry e failed = refl

IsHeld-if : (b : Bool) (e f : Engine) → IsHeld e → IsHeld f → IsHeld (if b then e else f)
IsHeld-if true e f h k = h
IsHeld-if false e f h k = k

module _ (run_thread : ParkedDispatch → World → World × Resumed) where
  unfoldable pub step : Call → Engine → Engine
  unfolding park_dispatch serve auto_continue
  step (parks d) e = park_dispatch d e
  step (serves now) e = serve run_thread now e
  step (continues now) e = auto_continue run_thread now e
  step (asks rs) e = record e { requests = e.requests ++ rs }

  unfoldable pub run : List Call → Engine → Engine
  unfolding step
  run [] e = e
  run (c ∷ cs) e = run cs (step c e)

  resume-IsHeld :
      (now stop : ℕ) (kind : Option ResumeKind) (e : Engine)
      → IsHeld e
      → IsHeld (resume run_thread now stop kind e)
  unfolding resume
  resume-IsHeld now stop kind e h = elim (Option-cases (take_out stop e.parked)) [
    | inl q ↦ rw (q, resume) h
    | inr ((entry, rest), q) ↦
        let e' = prepared now stop kind entry (record e { parked = rest }) in
        let r = run_thread entry e'.world in
        rw (q, resume) (settled-IsHeld now entry (record e' { world = r.0 }) r.1)
  ]

  resume_on-IsHeld :
      (fuel now : ℕ) (e : Engine) → IsHeld e → IsHeld (resume_on run_thread fuel now e)
  unfolding resume_on
  resume_on-IsHeld zero now e h = h
  resume_on-IsHeld (suc fuel) now e h = elim (Option-cases (last_id run_thread e.parked)) [
    | inl q ↦ rw (q, resume_on) h
    | inr (id, q) ↦
        let e' = resume run_thread now id (some continue_on) e in
        let held = resume-IsHeld now id (some continue_on) e h in
        elim (Bool-cases (leb (length e.parked) (length e'.parked))) [
          | inl l ↦ rw (q, l, resume_on) held
          | inr l ↦ rw (q, l, resume_on) (resume_on-IsHeld fuel now e' held)
        ]
  ]

  serve_from-IsHeld :
      (now : ℕ) (rs : List Request) (e : Engine)
      → IsHeld e
      → IsHeld (serve_from run_thread now rs e)
  unfolding serve_from resume_all
  serve_from-IsHeld now [] e h = h
  serve_from-IsHeld now (inspects ∷ rest) e h = serve_from-IsHeld now rest e h
  serve_from-IsHeld now (resumes stop kind ∷ rest) e h =
      resume-IsHeld now stop (some kind) (record e { requests = rest }) h
  serve_from-IsHeld now (detaches ∷ rest) e h =
      resume_on-IsHeld (length e.parked) now (record e { requests = rest }) h

  step-IsHeld : (c : Call) (e : Engine) → IsHeld e → IsHeld (step c e)
  unfolding step serve auto_continue resume_all hold_collector park_dispatch
  step-IsHeld (parks d) e h = refl
  step-IsHeld (serves now) e h =
      IsHeld-if e.world.local.vm_rx (serve_from run_thread now e.requests e) e
        (serve_from-IsHeld now e.requests e h) h
  step-IsHeld (continues now) e h =
      IsHeld-if (any_overdue run_thread now e.world.state e.parked) (resume_all run_thread now e) e
        (resume_on-IsHeld (length e.parked) now e h) h
  step-IsHeld (asks rs) e h = h

  -- The collector is held off exactly while a dispatch is suspended, if it was so before, whatever
  -- is suspended, asked by the client or resumed in time, in whatever order, and whatever the
  -- resumed dispatches do.
  pub run-IsHeld : (cs : List Call) (e : Engine) → IsHeld e → IsHeld (run cs e)
  unfolding run
  run-IsHeld [] e h = h
  run-IsHeld (c ∷ cs) e h = run-IsHeld cs (step c e) (step-IsHeld c e h)
