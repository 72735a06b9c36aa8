-- ===== src/Compute/Once/Calls.antt =====
-- src/core/compute/mod.rs: what the game thread and the watchdog do keeps each job counted once.
use oxigeon.Base.{
  ℕ, ◌+◌, ◌^◌, ◌<◌, Bool, true, false, List, [], ◌∷◌, Option, none, some, ltb, Bytes, length, ◌≡◌,
  refl, inl, inr, arith, Bool-cases, Option-cases, List-cases,
}
use oxigeon.Base.Keyed.{find, holds-remove_self, holds-remove-other}
use oxigeon.Compute.{ComputeConfig, Job, Bridge}
use oxigeon.Compute.Roots.{module_is_allowed}
use oxigeon.Compute.Operations.{
  Submission, registered, job_of, queue_full, enqueue, capacity, submit, deadline_of, Deadline,
  deadline_in, too_long, cancel, reap, reap_first, reap_all, kill_worker, too_late, set_cancelled,
}
use oxigeon.Compute.Once.{IsAccounted, weaken, answer-IsAccounted, modify-IsAccounted}

-- A new id: what was live or answered for it was nothing.
registered-IsAccounted :
    {bound : ℕ} (now ms : ℕ) (s : Submission) (b : Bridge)
    → IsAccounted bound b
    → bound + 1 < 2 ^ 64
    → IsAccounted (bound + 1) (registered now ms s b)
registered-IsAccounted now ms s b h l = record {
  positive = omega (arith, h.positive, h.bounded);
  bounded = omega (arith, h.bounded);
  total = λ k. ground (
    arith,
    h.total k,
    h.positive,
    h.bounded,
    holds-remove_self k b.live,
    holds-remove-other k b.next_id b.live,
  );
}

enqueue-IsAccounted :
    {bound : ℕ} (cfg : ComputeConfig) (now : ℕ) (j : Job) (b : Bridge)
    → IsAccounted bound b
    → IsAccounted bound (enqueue cfg now j b)
unfolding enqueue
enqueue-IsAccounted cfg now j b h = elim (Bool-cases (ltb (length b.queue) (capacity cfg))) [
  | inl e ↦ rw (e, enqueue) h
  | inr e ↦ rw (e, enqueue) (answer-IsAccounted now j.id queue_full b h)
]

pub submit-IsAccounted :
    {bound : ℕ} (cfg : ComputeConfig) (now : ℕ) (s : Submission) (b : Bridge)
    → IsAccounted bound b
    → bound + 1 < 2 ^ 64
    → IsAccounted (bound + 1) (submit cfg now s b).0
unfolding submit
submit-IsAccounted {bound} cfg now s b h l =
    go (module_is_allowed cfg.roots s.module_name) refl (deadline_of cfg s.deadline_ms) refl
  where
    go :
        (allowed : Bool)
        → module_is_allowed cfg.roots s.module_name ≡ allowed
        → (d : Deadline) → deadline_of cfg s.deadline_ms ≡ d
        → IsAccounted (bound + 1) (submit cfg now s b).0
    go false e d f = rw (e, submit) (weaken h)
    go true e (too_long ms) f = rw (e, f, submit) (weaken h)
    go true e (deadline_in ms) f =
        rw (e, f, submit)
          (enqueue-IsAccounted cfg now (job_of b.next_id (now + ms) s) (registered now ms s b)
            (registered-IsAccounted now ms s b h l))

pub cancel-IsAccounted :
    {bound : ℕ} (id : ℕ) (problem : Option Bytes) (b : Bridge)
    → IsAccounted bound b
    → IsAccounted bound (cancel id problem b).0
unfolding cancel
cancel-IsAccounted id problem b h = elim (Option-cases (find id b.live)) [
  | inl e ↦ rw (e, cancel) h
  | inr (entry, e) ↦ rw (e, cancel) (modify-IsAccounted id set_cancelled b h)
]

reap-IsAccounted :
    {bound : ℕ} (now : ℕ) (x : ℕ × Option ℕ) (b : Bridge)
    → IsAccounted bound b
    → IsAccounted bound (reap now x b)
reap-IsAccounted now (id, none) b h = answer-IsAccounted now id too_late b h
reap-IsAccounted now (id, some n) b h =
    answer-IsAccounted now id too_late (kill_worker (some n) b) h

pub reap_first-IsAccounted :
    {bound : ℕ} (now : ℕ) (b : Bridge) → IsAccounted bound b → IsAccounted bound (reap_first now b)
unfolding reap_first
reap_first-IsAccounted now b h = elim (List-cases b.expired) [
  | inl e ↦ rw (e, reap_first) h
  | inr (x, rest, e) ↦ rw (e, reap_first) (reap-IsAccounted now x (record b { expired = rest }) h)
]

pub reap_all-IsAccounted :
    {bound : ℕ} (now : ℕ) (found : List (ℕ × Option ℕ)) (b : Bridge)
    → IsAccounted bound b
    → IsAccounted bound (reap_all now found b)
unfolding reap_all
reap_all-IsAccounted now [] b h = h
reap_all-IsAccounted now (x ∷ rest) b h =
    reap_all-IsAccounted now rest (reap now x b) (reap-IsAccounted now x b h)
