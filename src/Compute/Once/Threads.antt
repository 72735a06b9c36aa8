-- ===== src/Compute/Once/Threads.antt =====
-- src/core/compute/mod.rs: what a host thread does keeps each job counted once.
use oxigeon.Base.{
  ℕ, true, List, ◌++◌, Option, none, some, if◌then◌else◌, Bytes, ◌≡◌, refl, inl, inr, Bool-cases,
  Option-cases, List-cases,
}
use oxigeon.Base.Utf8.{ascii}
use oxigeon.Wire.Message.{ToServer}
use oxigeon.Compute.{ComputeConfig, Job, Outcome, Slot, Child, Bridge, increment}
use oxigeon.Compute.Worker.{
  Launch, Incoming, Started, up, down, died, start, send_job, await, greeting, is_broken,
}
use oxigeon.Compute.Pool.{
  slot_at, claim, conclude, begin, not_started, refreshed, without_child, put_slot, launch,
  dispatch, take_job, receive, finish,
}
use oxigeon.Compute.Once.{IsAccounted, answer-IsAccounted, claim-IsAccounted}

conclude-IsAccounted :
    {bound : ℕ} (now n : ℕ) (j : Job) (s : Slot) (r : Option Child × Outcome) (b : Bridge)
    → IsAccounted bound b
    → IsAccounted bound (conclude now n j s r b)
unfolding conclude
conclude-IsAccounted now n j s (child, o) b h =
    let s' = record s { child = child; in_hand = none } in
    answer-IsAccounted now j.id o (put_slot n (if is_broken child then without_child s' else s') b)
      h

begin-IsAccounted :
    {bound : ℕ} (now n : ℕ) (problem : Option Bytes) (j : Job) (s : Slot) (b : Bridge)
    → IsAccounted bound b
    → IsAccounted bound (begin now n problem j s b)
unfolding begin
begin-IsAccounted now n problem j s b h = elim (Option-cases (send_job now j problem s.child).1) [
  | inl e ↦ rw (e, begin) h
  | inr (text, e) ↦
      rw (e, begin)
        (conclude-IsAccounted now n j s
          (
            (send_job now j problem s.child).0,
            died (ascii "could not send the job to its worker: " ++ text),
          )
          b h)
]

module _ (cfg : ComputeConfig) (mudlib game : Bytes) (print : ℕ → Bytes)
    (debug : ToServer → Bytes) where
  launch-IsAccounted :
      {bound : ℕ} (now n : ℕ) (attempt : Launch) (problem : Option Bytes) (j : Job) (s : Slot)
      (b : Bridge)
      → IsAccounted bound b
      → IsAccounted bound (launch cfg mudlib game print debug now n attempt problem j s b)
  unfolding launch
  launch-IsAccounted {bound} now n attempt problem j s b h =
      go (start debug (greeting cfg mudlib game n b.epoch) attempt) refl
    where
      go :
          (r : Started)
          → start debug (greeting cfg mudlib game n b.epoch) attempt ≡ r
          → IsAccounted bound (launch cfg mudlib game print debug now n attempt problem j s b)
      go (up child) e =
          rw (e, launch)
            (begin-IsAccounted now n problem j
              (record s { child = some child; reader = true; at_epoch = some b.epoch })
              (record b { stats = record b.stats { spawned = increment b.stats.spawned } }) h)
      go (down text) e =
          rw (e, launch)
            (answer-IsAccounted now j.id (not_started text)
              (put_slot n s
                (record b { stats = record b.stats { spawned = increment b.stats.spawned } }))
              h)

  dispatch-IsAccounted :
      {bound : ℕ} (now n : ℕ) (attempt : Launch) (problem : Option Bytes) (j : Job) (s : Slot)
      (b : Bridge)
      → IsAccounted bound b
      → IsAccounted bound (dispatch cfg mudlib game print debug now n attempt problem j s b)
  unfolding dispatch
  dispatch-IsAccounted now n attempt problem j s b h =
      elim (Bool-cases (refreshed b.epoch s).reader) [
        | inl e ↦ rw (e, dispatch) (begin-IsAccounted now n problem j (refreshed b.epoch s) b h)
        | inr e ↦
            rw (e, dispatch) (launch-IsAccounted now n attempt problem j (refreshed b.epoch s) b h)
      ]

  take_job-IsAccounted :
      {bound : ℕ} (now n : ℕ) (attempt : Launch) (problem : Option Bytes) (j : Job) (s : Slot)
      (b : Bridge)
      → IsAccounted bound b
      → IsAccounted bound (take_job cfg mudlib game print debug now n attempt problem j s b)
  unfolding take_job
  take_job-IsAccounted now n attempt problem j s b h =
      elim (Bool-cases (claim now n j.id b.live).1) [
        | inl e ↦
            rw (e, take_job)
              (dispatch-IsAccounted now n attempt problem j s
                (record b { live = (claim now n j.id b.live).0 })
                (claim-IsAccounted now n j.id b h))
        | inr e ↦ rw (e, take_job) h
      ]

  pub receive-IsAccounted :
      {bound : ℕ} (now n : ℕ) (attempt : Launch) (problem : Option Bytes) (b : Bridge)
      → IsAccounted bound b
      → IsAccounted bound (receive cfg mudlib game print debug now n attempt problem b)
  unfolding receive
  receive-IsAccounted {bound} now n attempt problem b h = go (slot_at n b.workers) refl b.queue refl
    where
      go :
          (s : Option Slot)
          → slot_at n b.workers ≡ s
          → (q : List Job) → b.queue ≡ q
          → IsAccounted bound (receive cfg mudlib game print debug now n attempt problem b)
      go none e q f = rw (e, receive) h
      go (some s) e q f = elim (Option-cases s.in_hand) [
        | inr (j, g) ↦ rw (e, g, receive) h
        | inl g ↦ elim (List-cases q) [
          | inl k ↦ rw (e, g, f, k, receive) h
          | inr (j, rest, k) ↦
              rw (e, g, f, k, receive)
                (take_job-IsAccounted now n attempt problem j s (record b { queue = rest }) h)
        ]
      ]

  pub finish-IsAccounted :
      {bound : ℕ} (now n : ℕ) (incoming : List Incoming) (b : Bridge)
      → IsAccounted bound b
      → IsAccounted bound (finish cfg mudlib game print debug now n incoming b)
  unfolding finish
  finish-IsAccounted {bound} now n incoming b h = go (slot_at n b.workers) refl
    where
      go :
          (s : Option Slot)
          → slot_at n b.workers ≡ s
          → IsAccounted bound (finish cfg mudlib game print debug now n incoming b)
      go none e = rw (e, finish) h
      go (some s) e = elim (Option-cases s.in_hand) [
        | inl g ↦ rw (e, g, finish) h
        | inr (j, g) ↦ elim (Option-cases (await print j incoming s.child)) [
          | inl k ↦ rw (e, g, k, finish) h
          | inr (r, k) ↦ rw (e, g, k, finish) (conclude-IsAccounted now n j s r b h)
        ]
      ]
