-- ===== src/Compute/Pool.antt =====
-- src/core/compute/mod.rs: starting the pool, the host thread of each worker, and everything that
-- happens to a bridge, one event after another. What the system and the workers do is part of the
-- event.
use oxigeon.Base.{
  ℕ, zero, suc, Bool, true, false, not, ◌||◌, List, [], ◌∷◌, ◌++◌, Option, none, some, ◌==◌, leb,
  if◌then◌else◌, Bytes,
}
use oxigeon.Base.Utf8.{ascii}
use oxigeon.Base.Keyed.{find, modify}
use oxigeon.Wire.Value.{nil}
use oxigeon.Wire.Message.{load_error, ToServer}
use oxigeon.Compute.{ComputeConfig, Job, Live, Outcome, Child, Slot, Bridge, increment}
use oxigeon.Compute.Worker.{
  Incoming, Launch, up, down, is_running, is_broken, died, start, send_job, await, greeting,
}
use oxigeon.Compute.Operations.{
  Submission, submit, cancel, recycle, answer, at_slot, find_expired, reap_first,
}

-- No child, nothing read, no job.
abbrev empty_slot : Slot
empty_slot = record { child = none; at_epoch = none; reader = false; in_hand = none }

abbrev pub slots : ℕ → List Slot
slots zero = []
slots (suc n) = empty_slot ∷ slots n

abbrev pub start_bridge : ComputeConfig → Bridge
start_bridge cfg = record {
  queue = [];
  next_id = 1;
  epoch = 0;
  live = [];
  stats = record {
    submitted = 0;
    completed = 0;
    failed = 0;
    timed_out = 0;
    refused = 0;
    cancelled = 0;
    wedged = 0;
    spawned = 0;
  };
  workers = slots (if leb 1 cfg.workers then cfg.workers else 1);
  results = [];
  expired = [];
}

unfoldable start_pool : ComputeConfig → Option Bridge
start_pool cfg = if not cfg.enabled then none else some (start_bridge cfg)

unfoldable pub slot_at : ℕ → List Slot → Option Slot
slot_at n [] = none
slot_at zero (s ∷ ss) = some s
slot_at (suc n) (s ∷ ss) = slot_at n ss

abbrev pub put_slot : ℕ → Slot → Bridge → Bridge
put_slot n s b = record b { workers = at_slot n (λ _. s) b.workers }

abbrev pub set_started : ℕ → ℕ → Live → Live
set_started now n entry = record entry { started = some now; worker = some n }

unfoldable pub claim : ℕ → ℕ → ℕ → List (ℕ × Live) → List (ℕ × Live) × Bool
claim now n id live = elim (find id live) [
  | none ↦ (live, false)
  | some entry ↦
      if entry.cancelled then (live, false) else (modify id (set_started now n) live, true)
]

abbrev pub without_child : Slot → Slot
without_child s = record s { child = none; reader = false; at_epoch = none }

abbrev is_epoch : ℕ → Option ℕ → Bool
is_epoch current none = false
is_epoch current (some e) = e == current

-- A worker of an older epoch, or that is gone, is shut down.
abbrev pub refreshed : ℕ → Slot → Slot
refreshed current s =
    if not (is_epoch current s.at_epoch) || not (is_running s.child) then without_child s else s

-- After `run`: a broken child is shut down, and the job is answered for.
unfoldable pub conclude : ℕ → ℕ → Job → Slot → Option Child × Outcome → Bridge → Bridge
unfolding answer
conclude now n j s (child, outcome) b =
    let s' = record s { child = child; in_hand = none } in
    answer now j.id outcome (put_slot n (if is_broken child then without_child s' else s') b)

unfoldable pub begin : ℕ → ℕ → Option Bytes → Job → Slot → Bridge → Bridge
unfolding send_job died conclude
begin now n problem j s b =
    let (child, failure) = send_job now j problem s.child in
    elim failure [
      | none ↦ put_slot n (record s { child = child; in_hand = some j }) b
      | some e ↦
          conclude now n j s (child, died (ascii "could not send the job to its worker: " ++ e)) b
    ]

unfoldable pub not_started : Bytes → Outcome
not_started e = record {
  ending = load_error;
  value = nil;
  error = some (ascii "compute worker could not start: " ++ e);
  logs = [];
}

module _ (cfg : ComputeConfig) (mudlib game : Bytes) (print : ℕ → Bytes)
    (debug : ToServer → Bytes) where
  unfoldable pub launch : ℕ → ℕ → Launch → Option Bytes → Job → Slot → Bridge → Bridge
  unfolding start begin not_started greeting
  launch now n attempt problem j s b =
      let b' = record b { stats = record b.stats { spawned = increment b.stats.spawned } } in
      elim (start debug (greeting cfg mudlib game n b.epoch) attempt) [
        | up child ↦
            begin now n problem j
              (record s { child = some child; reader = true; at_epoch = some b.epoch }) b'
        | down e ↦ answer now j.id (not_started e) (put_slot n s b')
      ]

  unfoldable pub dispatch : ℕ → ℕ → Launch → Option Bytes → Job → Slot → Bridge → Bridge
  unfolding launch begin
  dispatch now n attempt problem j s b =
      let s' = refreshed b.epoch s in
      if s'.reader then begin now n problem j s' b else launch now n attempt problem j s' b

  unfoldable pub take_job : ℕ → ℕ → Launch → Option Bytes → Job → Slot → Bridge → Bridge
  unfolding claim dispatch
  take_job now n attempt problem j s b =
      let (live, still_wanted) = claim now n j.id b.live in
      if still_wanted then dispatch now n attempt problem j s (record b { live = live }) else b

  -- A host thread without a job receives the first that waits.
  unfoldable pub receive : ℕ → ℕ → Launch → Option Bytes → Bridge → Bridge
  unfolding slot_at take_job
  receive now n attempt problem b = elim (slot_at n b.workers) [
    | none ↦ b
    | some s ↦ elim s.in_hand [
      | some _ ↦ b
      | none ↦ elim b.queue [
        | [] ↦ b
        | j ∷ rest ↦ take_job now n attempt problem j s (record b { queue = rest })
      ]
    ]
  ]

  -- A host thread with a job reads from its worker.
  unfoldable pub finish : ℕ → ℕ → List Incoming → Bridge → Bridge
  unfolding slot_at await conclude
  finish now n incoming b = elim (slot_at n b.workers) [
    | none ↦ b
    | some s ↦ elim s.in_hand [
      | none ↦ b
      | some j ↦ elim (await print j incoming s.child) [
        | none ↦ b
        | some r ↦ conclude now n j s r b
      ]
    ]
  ]

  pub data Event : Type 0 where
    submits : ℕ → Submission → Event
    receives : ℕ → ℕ → Launch → Option Bytes → Event
    finishes : ℕ → ℕ → List Incoming → Event
    cancels : ℕ → Option Bytes → Event
    recycles : Event
    finds_expired : ℕ → Event
    reaps : ℕ → Event

  unfoldable pub step : Event → Bridge → Bridge
  unfolding submit receive finish cancel recycle find_expired reap_first
  step (submits now s) b = (submit cfg now s b).0
  step (receives now n attempt problem) b = receive now n attempt problem b
  step (finishes now n incoming) b = finish now n incoming b
  step (cancels id problem) b = (cancel id problem b).0
  step recycles b = recycle b
  step (finds_expired now) b = find_expired now b
  step (reaps now) b = reap_first now b

  unfoldable pub run : List Event → Bridge → Bridge
  unfolding step
  run [] b = b
  run (e ∷ es) b = run es (step e b)
