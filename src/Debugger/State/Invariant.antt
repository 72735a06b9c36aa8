-- ===== src/Debugger/State/Invariant.antt =====
-- src/core/scripting/debugger/state.rs: what the hook reads without a lock agrees with what is
-- behind the locks.
use oxigeon.Base.{
  ℕ, ◌+◌, ◌*◌, ◌%◌, ◌^◌, ◌≤◌, ◌<◌, Bool, List, [], ◌∷◌, ◌==◌, ltb, Bytes, length, All, ◌≡◌, refl,
  arith, Bool-cases, inl, inr, false, if◌then◌else◌,
}
use oxigeon.Base.Keyed.{remove}
use oxigeon.Debugger.State.{TraceConfig, BreakpointSpec, ParkedStop, DebugEventMsg, DebugState}
use oxigeon.Debugger.State.Wanted.{IsWanted, points, length-points, republish-IsWanted}
use oxigeon.Debugger.State
use oxigeon.Debugger.State.Operations.{
  files_with, total_lines, new, republish, DebugServerConfig, from_config, set_trace_config,
  set_breakpoints, clear_breakpoints, next_stop_id, insert_stop, park, unpark, set_freezes, emit,
  add_paused, connect, attach, request_pause, detach,
}

-- The bits, the counts, and the ids of what is parked: no id is that of the whole world, none is
-- still to be drawn, and the oldest stands first.
abbrev Increasing : List (ℕ × ParkedStop) → Type 0
Increasing [] = Unit
Increasing (e ∷ rest) = All (λ f. e.0 < f.0) rest × Increasing rest

abbrev pub IsPublished : DebugState → Type 0
IsPublished st =
    IsWanted st
    × (st.bp_count ≡ length (points st.breakpoints.by_file))
    × (st.parked_count ≡ length st.parked)
    × All (λ e. (2 ≤ e.0) × (e.0 < st.next_stop)) st.parked
    × Increasing st.parked
    × (2 ≤ st.next_stop)

pub data Operation : Type 0 where
  sets_trace : TraceConfig → Operation
  sets_breakpoints : Bytes → List (ℕ × BreakpointSpec) → Operation
  clears_breakpoints : Operation
  parks : ParkedStop → Operation
  unparks : ℕ → Operation
  freezes : Bool → Operation
  emits : DebugEventMsg → Operation
  pauses_for : ℕ → Operation
  connects : Operation
  attaches : Operation
  requests_pause : Operation
  detaches : Operation

unfoldable pub step : Operation → DebugState → DebugState
unfolding set_trace_config set_breakpoints clear_breakpoints next_stop_id park unpark set_freezes
    emit add_paused connect attach request_pause detach
step (sets_trace cfg) st = set_trace_config cfg st
step (sets_breakpoints file specs) st = (set_breakpoints file specs st).0
step clears_breakpoints st = clear_breakpoints st
step (parks stop) st = let (st', id) = next_stop_id st in park id stop st'
step (unparks id) st = (unpark id st).0
step (freezes on) st = (set_freezes on st).0
step (emits msg) st = emit msg st
step (pauses_for elapsed) st = add_paused elapsed st
step connects st = connect st
step attaches st = attach st
step requests_pause st = request_pause st
step detaches st = detach st

unfoldable pub run : List Operation → DebugState → DebugState
unfolding step
run [] st = st
run (o ∷ os) st = run os (step o st)

All-insert :
    (P : ℕ × ParkedStop → Type 0) (id : ℕ) (stop : ParkedStop) (m : List (ℕ × ParkedStop))
    → P (id, stop)
    → All P m
    → All P (insert_stop id stop m)
All-insert P id stop [] p h = (p, tt)
All-insert P id stop ((k, s) ∷ rest) p h = elim (Bool-cases (ltb id k)) [
  | inl e ↦ rw e (p, h)
  | inr e ↦ elim (Bool-cases (id == k)) [
    | inl f ↦ rw (e, f) (p, h.1)
    | inr f ↦ rw (e, f) (h.0, All-insert P id stop rest p h.1)
  ]
]

All-less :
    (n more : ℕ) (m : List (ℕ × ParkedStop))
    → n ≤ more
    → All (λ e. (2 ≤ e.0) × (e.0 < n)) m
    → All (λ e. (2 ≤ e.0) × (e.0 < more)) m
All-less n more [] l h = tt
All-less n more (e ∷ m) l h = ((h.0.0, omega (arith, h.0.1)), All-less n more m l h.1)

Increasing-insert :
    (id : ℕ) (stop : ParkedStop) (m : List (ℕ × ParkedStop))
    → All (λ e. (2 ≤ e.0) × (e.0 < id)) m
    → Increasing m
    → Increasing (insert_stop id stop m)
Increasing-insert id stop [] l h = (tt, tt)
Increasing-insert id stop ((k, s) ∷ rest) l h = elim (Bool-cases (ltb id k)) [
  | inl e ↦ absurd (ground (arith, l.0.1))
  | inr e ↦ elim (Bool-cases (id == k)) [
    | inl f ↦ absurd (ground (arith, l.0.1))
    | inr f ↦
        rw (e, f)
          (All-insert (λ g. k < g.0) id stop rest l.0.1 h.0, Increasing-insert id stop rest l.1 h.1)
  ]
]

All-remove :
    (P : ℕ × ParkedStop → Type 0) (id : ℕ) (m : List (ℕ × ParkedStop))
    → All P m
    → All P (remove id m)
All-remove P id [] h = tt
All-remove P id ((k, s) ∷ rest) h = elim (Bool-cases (k == id)) [
  | inl e ↦ rw e (All-remove P id rest h.1)
  | inr e ↦ rw e (h.0, All-remove P id rest h.1)
]

Increasing-remove : (id : ℕ) (m : List (ℕ × ParkedStop)) → Increasing m → Increasing (remove id m)
Increasing-remove id [] h = tt
Increasing-remove id ((k, s) ∷ rest) h = elim (Bool-cases (k == id)) [
  | inl e ↦ rw e (Increasing-remove id rest h.1)
  | inr e ↦ rw e (All-remove (λ g. k < g.0) id rest h.0, Increasing-remove id rest h.1)
]

step-IsPublished :
    (o : Operation) (st : DebugState)
    → IsPublished st
    → st.next_stop + 1 < 2 ^ 64
    → IsPublished (step o st)
unfolding step republish
step-IsPublished (sets_trace cfg) st h l =
    (republish-IsWanted (record st { cfg = cfg }), h.1, h.2, h.3, h.4, h.5)
step-IsPublished (sets_breakpoints file specs) st h l =
    let files = files_with file specs st.breakpoints.by_file in
    (
      republish-IsWanted (record st {
        breakpoints = record { by_file = files; next_id = st.breakpoints.next_id + length specs };
        bp_count = total_lines files;
      }),
      length-points files,
      h.2,
      h.3,
      h.4,
      h.5,
    )
step-IsPublished clears_breakpoints st h l = (
  republish-IsWanted
      (record st { breakpoints = record st.breakpoints { by_file = [] }; bp_count = 0 }),
  refl,
  h.2,
  h.3,
  h.4,
  h.5,
)
step-IsPublished (parks stop) st h l = (
  h.0,
  h.1,
  refl,
  All-insert (λ e. (2 ≤ e.0) × (e.0 < (st.next_stop + 1) % 2 ^ 64)) st.next_stop stop st.parked
      (h.5, omega arith)
      (All-less st.next_stop ((st.next_stop + 1) % 2 ^ 64) st.parked (omega arith) h.3),
  Increasing-insert st.next_stop stop st.parked h.3 h.4,
  omega (arith, h.5),
)
step-IsPublished (unparks id) st h l =
    (h.0, h.1, refl, All-remove _ id st.parked h.3, Increasing-remove id st.parked h.4, h.5)
step-IsPublished (freezes on) st h l = h
step-IsPublished (emits msg) st h l = elim (Bool-cases st.listening) [
  | inl e ↦ rw (e, step, emit) h
  | inr e ↦ rw (e, step, emit) h
]
step-IsPublished (pauses_for elapsed) st h l = h
step-IsPublished connects st h l = h
step-IsPublished attaches st h l =
    (republish-IsWanted (record st { clients = 1 }), h.1, h.2, h.3, h.4, h.5)
step-IsPublished requests_pause st h l = h
step-IsPublished detaches st h l = (
  republish-IsWanted (record st {
    clients = 0;
    pause_req = false;
    breakpoints = record st.breakpoints { by_file = [] };
    bp_count = 0;
  }),
  refl,
  h.2,
  h.3,
  h.4,
  h.5,
)

-- A step draws one stop id at most.
step-next_stop :
    (o : Operation) (st : DebugState) (bound : ℕ)
    → st.next_stop ≤ bound
    → (step o st).next_stop ≤ bound + 1
unfolding step republish
step-next_stop (sets_trace cfg) st bound l = omega (arith, l)
step-next_stop (sets_breakpoints file specs) st bound l = omega (arith, l)
step-next_stop clears_breakpoints st bound l = omega (arith, l)
step-next_stop (parks stop) st bound l = omega (arith, l)
step-next_stop (unparks id) st bound l = omega (arith, l)
step-next_stop (freezes on) st bound l = omega (arith, l)
step-next_stop (emits msg) st bound l = elim (Bool-cases st.listening) [
  | inl e ↦ rw (e, step, emit) (omega (arith, l))
  | inr e ↦ rw (e, step, emit) (omega (arith, l))
]
step-next_stop (pauses_for elapsed) st bound l = omega (arith, l)
step-next_stop connects st bound l = omega (arith, l)
step-next_stop attaches st bound l = omega (arith, l)
step-next_stop requests_pause st bound l = omega (arith, l)
step-next_stop detaches st bound l = omega (arith, l)

run-keeps :
    (os : List Operation) (st : DebugState) (bound : ℕ)
    → IsPublished st
    → st.next_stop ≤ bound
    → bound + length os < 2 ^ 64
    → IsPublished (run os st)
unfolding run
run-keeps [] st bound h l m = h
run-keeps (o ∷ os) st bound h l m =
    run-keeps os (step o st) (bound + 1) (step-IsPublished o st h (omega arith))
      (step-next_stop o st bound l) (omega arith)

pub run-IsPublished :
    (cfg : DebugServerConfig) (limit : ℕ) (os : List Operation)
    → 2 + length os < 2 ^ 64
    → IsPublished (run os (from_config cfg limit))
unfolding from_config republish
run-IsPublished cfg limit os l =
    run-keeps os (from_config cfg limit) 2
      (
        republish-IsWanted (record new {
          debug_library = cfg.enabled;
          stop_the_world = cfg.stop_the_world;
          instruction_limit = limit;
          instruction_step = State.instruction_step limit;
          auto_continue =
              if cfg.auto_continue_secs == 0 then 86400000 else cfg.auto_continue_secs * 1000;
        }),
        refl,
        refl,
        tt,
        tt,
        omega arith,
      )
      (omega arith) l
