-- ===== src/Compute/Operations.antt =====
-- src/core/compute/mod.rs: the operations that the game thread and the watchdog call. `now` is the
-- instant at which an operation runs; `try_send` finds the queue connected, since the bridge holds
-- the sender that its receivers wait for.
use oxigeon.Base.{
  ℕ, zero, suc, ◌+◌, ◌-◌, ◌^◌, Bool, true, false, List, [], ◌∷◌, ◌++◌, Option, none, some, ltb, leb,
  if◌then◌else◌, Bytes, length,
}
use oxigeon.Base.Utf8.{ascii}
use oxigeon.Base.Keyed.{find, remove, modify}
use oxigeon.Wire.Value.{LuaData, nil}
use oxigeon.Wire.Message.{Ending, ok_ending, timeout, cancelled, refused}
use oxigeon.Compute.{
  ComputeConfig, SubmitError, bad_module, deadline_too_long, Job, Live, Stats, Outcome,
  ComputeResult, Child, Slot, Bridge, increment,
}
use oxigeon.Compute.Roots.{module_is_allowed}
use oxigeon.Compute.Worker.{kill, send_cancel}

unfoldable pub counted : Ending → Stats → Stats
counted ok_ending s = record s { completed = increment s.completed }
counted timeout s = record s { timed_out = increment s.timed_out }
counted cancelled s = record s { cancelled = increment s.cancelled }
counted refused s = record s { refused = increment s.refused }
counted _ s = record s { failed = increment s.failed }

abbrev started_or : ℕ → Option ℕ → ℕ
started_or now none = now
started_or now (some t) = t

abbrev pub result_of : ℕ → ℕ → Live → Outcome → ComputeResult
result_of now id entry outcome = record {
  id = id;
  outcome = outcome;
  tag = entry.tag;
  module_name = entry.module_name;
  func = entry.func;
  queued_ms = started_or now entry.started - entry.submitted;
  run_ms = now - started_or now entry.started;
}

unfoldable pub answer : ℕ → ℕ → Outcome → Bridge → Bridge
unfolding counted
answer now id outcome b = elim (find id b.live) [
  | none ↦ b
  | some entry ↦ record b {
    live = remove id b.live;
    stats = counted outcome.ending b.stats;
    results = b.results ++ result_of now id entry outcome ∷ [];
  }
]

-- The arguments of `submit`.
pub record Submission : Type 0 where
  pub module_name : Bytes
  pub func : Bytes
  pub args : LuaData
  pub tag : LuaData
  pub deadline_ms : Option ℕ

pub data Submitted : Type 0 where
  accepted : ℕ → Submitted
  rejected : SubmitError → Submitted

pub data Deadline : Type 0 where
  deadline_in : ℕ → Deadline
  too_long : ℕ → Deadline

abbrev pub deadline_of : ComputeConfig → Option ℕ → Deadline
deadline_of cfg none = deadline_in cfg.default_deadline_ms
deadline_of cfg (some ms) = if leb ms cfg.max_deadline_ms then deadline_in ms else too_long ms

abbrev pub queue_full : Outcome
queue_full = record {
  ending = refused;
  value = nil;
  error = some (ascii "every compute worker is busy and the queue is full");
  logs = [];
}

-- `queue_depth.max(1)`
abbrev pub capacity : ComputeConfig → ℕ
capacity cfg = if leb 1 cfg.queue_depth then cfg.queue_depth else 1

-- The id is drawn, the entry is made and counted.
abbrev pub registered : ℕ → ℕ → Submission → Bridge → Bridge
registered now ms s b = record b {
  next_id = increment b.next_id;
  live =
      (
        b.next_id,
        record {
          module_name = s.module_name;
          func = s.func;
          tag = s.tag;
          submitted = now;
          deadline = now + ms;
          started = none;
          cancelled = false;
          worker = none;
        },
      )
      ∷ remove b.next_id b.live;
  stats = record b.stats { submitted = increment b.stats.submitted };
}

abbrev pub job_of : ℕ → ℕ → Submission → Job
job_of id deadline s = record {
  id = id;
  module_name = s.module_name;
  func = s.func;
  args = s.args;
  deadline = deadline;
}

unfoldable pub enqueue : ComputeConfig → ℕ → Job → Bridge → Bridge
unfolding answer
enqueue cfg now j b =
    if ltb (length b.queue) (capacity cfg)
    then record b { queue = b.queue ++ j ∷ [] }
    else answer now j.id queue_full b

unfoldable pub submit : ComputeConfig → ℕ → Submission → Bridge → Bridge × Submitted
unfolding module_is_allowed enqueue
submit cfg now s b =
    if module_is_allowed cfg.roots s.module_name
    then elim (deadline_of cfg s.deadline_ms) [
      | deadline_in ms ↦ (
        enqueue cfg now (job_of b.next_id (now + ms) s) (registered now ms s b),
        accepted b.next_id,
      )
      | too_long ms ↦ (b, rejected (deadline_too_long ms cfg.max_deadline_ms))
    ]
    else (b, rejected (bad_module s.module_name))

-- The slot with a number, changed if there is one.
abbrev pub at_slot : ℕ → (Slot → Slot) → List Slot → List Slot
at_slot n f [] = []
at_slot zero f (s ∷ ss) = f s ∷ ss
at_slot (suc n) f (s ∷ ss) = s ∷ at_slot n f ss

abbrev with_child : (Option Child → Option Child) → Slot → Slot
with_child f s = record s { child = f s.child }

abbrev pub told : ℕ → Option Bytes → Option ℕ → List Slot → List Slot
told id problem none slots = slots
told id problem (some n) slots = at_slot n (with_child (send_cancel id problem)) slots

abbrev pub set_cancelled : Live → Live
set_cancelled entry = record entry { cancelled = true }

-- `problem` is what the system says to the frame that is written to the worker, if one is.
unfoldable pub cancel : ℕ → Option Bytes → Bridge → Bridge × Bool
unfolding send_cancel
cancel id problem b = elim (find id b.live) [
  | none ↦ (b, false)
  | some entry ↦ (
    record b {
      live = modify id set_cancelled b.live;
      workers = told id problem entry.worker b.workers;
    },
    true,
  )
]

unfoldable pub recycle : Bridge → Bridge
recycle b = record b { epoch = increment b.epoch }

-- A job that was started in no known worker is one that runs in worker `usize::MAX`.
abbrev pub running_on : Live → Option ℕ
running_on entry = elim entry.started [
  | none ↦ none
  | some _ ↦ elim entry.worker [ none ↦ some (2 ^ 64 - 1) | some n ↦ some n ]
]

unfoldable pub expired_of : ℕ → List (ℕ × Live) → List (ℕ × Option ℕ)
expired_of now [] = []
expired_of now ((id, entry) ∷ rest) =
    let found = expired_of now rest in
    if leb entry.deadline now then (id, running_on entry) ∷ found else found

-- The watchdog looks at what is live.
unfoldable pub find_expired : ℕ → Bridge → Bridge
unfolding expired_of
find_expired now b = record b { expired = expired_of now b.live }

abbrev pub too_late : Outcome
too_late = record {
  ending = timeout;
  value = nil;
  error = some (ascii "the job did not finish before its deadline");
  logs = [];
}

abbrev pub kill_worker : Option ℕ → Bridge → Bridge
kill_worker none b = b
kill_worker (some n) b = record b {
  stats = record b.stats { wedged = increment b.stats.wedged };
  workers = at_slot n (with_child kill) b.workers;
}

-- One turn of the loop over what it found.
abbrev pub reap : ℕ → ℕ × Option ℕ → Bridge → Bridge
reap now (id, on_worker) b = answer now id too_late (kill_worker on_worker b)

unfoldable pub reap_first : ℕ → Bridge → Bridge
unfolding answer
reap_first now b = elim b.expired [ [] ↦ b | x ∷ rest ↦ reap now x (record b { expired = rest }) ]

unfoldable pub reap_all : ℕ → List (ℕ × Option ℕ) → Bridge → Bridge
unfolding answer
reap_all now [] b = b
reap_all now (x ∷ rest) b = reap_all now rest (reap now x b)

-- `reap_expired`, where nothing else runs between its lock and its end.
unfoldable pub reap_expired : ℕ → Bridge → Bridge
unfolding expired_of reap_all
reap_expired now b = reap_all now (expired_of now b.live) b

pub record Snapshot : Type 0 where
  pub workers : ℕ
  pub queue_depth : ℕ
  pub instruction_limit : ℕ
  pub in_flight : ℕ
  pub running : ℕ
  pub stats : Stats

abbrev running_of : List (ℕ × Live) → ℕ
running_of [] = 0
running_of ((id, entry) ∷ rest) = elim entry.started [ none ↦ 0 | some _ ↦ 1 ] + running_of rest

unfoldable snapshot : ComputeConfig → Bridge → Snapshot
snapshot cfg b = record {
  workers = cfg.workers;
  queue_depth = cfg.queue_depth;
  instruction_limit = cfg.instruction_limit;
  in_flight = length b.live;
  running = running_of b.live;
  stats = b.stats;
}
