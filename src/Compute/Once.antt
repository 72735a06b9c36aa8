-- ===== src/Compute/Once.antt =====
-- src/core/compute/mod.rs: a job that was accepted is live, or it was answered, and never twice.
pub mod Calls
pub mod Threads
pub mod Runs
use oxigeon.Base.{
  ℕ, zero, suc, ◌+◌, ◌%◌, ◌^◌, ◌≤◌, ◌<◌, Bool, true, false, ◌&&◌, List, [], ◌∷◌, ◌++◌, Option, none,
  some, ◌==◌, ltb, leb, if◌then◌else◌, Bytes, length, ◌≡◌, refl, sym, ap, ◌∙◌, subst, ◌⊎◌, inl, inr,
  arith, Bool-cases, Option-cases, List-cases,
}
use oxigeon.Base.Utf8.{ascii}
use oxigeon.Base.Keyed.{
  find, remove, modify, holds, holds-modify, holds-remove_self, holds-remove-other, find-none,
  find-some,
}
use oxigeon.Wire.Message.{ToServer}
use oxigeon.Compute.{
  ComputeConfig, Job, Outcome, ComputeResult, Live, Slot, Child, Bridge, increment,
}
use oxigeon.Compute.Roots.{module_is_allowed}
use oxigeon.Compute.Worker.{
  Launch, Incoming, Started, up, down, died, start, send_job, await, greeting, is_broken,
}
use oxigeon.Compute.Operations.{
  Submission, answer, result_of, registered, job_of, queue_full, enqueue, capacity, submit,
  deadline_of, Deadline, deadline_in, too_long, cancel, recycle, reap, reap_first, reap_all,
  reap_expired, find_expired, expired_of, kill_worker, too_late, set_cancelled,
}
use oxigeon.Compute.Pool.{
  slot_at, claim, set_started, conclude, begin, not_started, refreshed, without_child, put_slot,
  launch, dispatch, take_job, receive, finish, Event, submits, receives, finishes, cancels,
  recycles, finds_expired, reaps, step, run, start_bridge,
}

-- How many results were sent for an id.
abbrev pub answers : ℕ → List ComputeResult → ℕ
answers id [] = 0
answers id (r ∷ rs) = (if r.id == id then 1 else 0) + answers id rs

answers-append :
    (id : ℕ) (rs ss : List ComputeResult) → answers id (rs ++ ss) ≡ answers id rs + answers id ss
answers-append id [] ss = omega arith
answers-append id (r ∷ rs) ss = omega (arith, answers-append id rs ss)

-- Whether an id was given to a caller.
abbrev pub issued : ℕ → ℕ → Bool
issued id next_id = leb 1 id && ltb id next_id

-- Every id that was given out is live or answered, once; no other is. `bound` bounds the ids.
pub record Accounts (bound next_id : ℕ) (live : List (ℕ × Live)) (results : List ComputeResult)
    : Type 0 where
  pub positive : 1 ≤ next_id
  pub bounded : next_id ≤ bound
  pub total : (id : ℕ) → holds id live + answers id results ≡ (if issued id next_id then 1 else 0)

abbrev pub IsAccounted : ℕ → Bridge → Type 0
IsAccounted bound b = Accounts bound b.next_id b.live b.results

-- What is left when an entry was claimed.
claimed-total :
    (id other : ℕ) (r : ComputeResult) (live : List (ℕ × Live)) (rs : List ComputeResult)
    → r.id ≡ other
    → 1 ≤ holds other live
    → holds other live + answers other rs ≤ 1
    → holds id (remove other live) + answers id (rs ++ r ∷ []) ≡ holds id live + answers id rs
claimed-total id other r live rs e one most = ground (
  arith,
  answers-append id rs (r ∷ []),
  holds-remove_self id live,
  holds-remove-other id other live,
)

at_most_one :
    {bound : ℕ} (id : ℕ) (b : Bridge)
    → IsAccounted bound b
    → holds id b.live + answers id b.results ≤ 1
at_most_one id b h = ground (arith, h.total id)

pub answer-IsAccounted :
    {bound : ℕ} (now id : ℕ) (o : Outcome) (b : Bridge)
    → IsAccounted bound b
    → IsAccounted bound (answer now id o b)
unfolding answer
answer-IsAccounted now id o b h = elim (Option-cases (find id b.live)) [
  | inl e ↦ rw (e, answer) h
  | inr (entry, e) ↦
      rw (e, answer)
        (record {
          positive = h.positive;
          bounded = h.bounded;
          total = λ k.
              claimed-total k id (result_of now id entry o) b.live b.results refl
                (find-some id b.live entry e) (at_most_one id b h)
              ∙ h.total k;
        })
]

pub weaken :
    {bound next_id : ℕ} {live : List (ℕ × Live)} {results : List ComputeResult}
    → Accounts bound next_id live results
    → Accounts (bound + 1) next_id live results
weaken h = record { positive = h.positive; bounded = omega (arith, h.bounded); total = h.total }

-- Entries are changed in place.
pub modify-IsAccounted :
    {bound : ℕ} (id : ℕ) (f : Live → Live) (b : Bridge)
    → IsAccounted bound b
    → IsAccounted bound (record b { live = modify id f b.live })
modify-IsAccounted id f b h = record {
  positive = h.positive;
  bounded = h.bounded;
  total = λ k. ap (λ n. n + answers k b.results) (holds-modify k id f b.live) ∙ h.total k;
}

pub claim-IsAccounted :
    {bound : ℕ} (now n id : ℕ) (b : Bridge)
    → IsAccounted bound b
    → IsAccounted bound (record b { live = (claim now n id b.live).0 })
unfolding claim
claim-IsAccounted now n id b h = elim (Option-cases (find id b.live)) [
  | inl e ↦ rw (e, claim) h
  | inr (entry, e) ↦ elim (Bool-cases entry.cancelled) [
    | inl c ↦ rw (e, c, claim) h
    | inr c ↦ rw (e, c, claim) (modify-IsAccounted id (set_started now n) b h)
  ]
]
