-- ===== src/Compute/Once/Runs.antt =====
-- src/core/compute/mod.rs: every job is answered once, over all that happens to a bridge.
use oxigeon.Base.{
  ℕ, ◌+◌, ◌^◌, ◌≤◌, ◌<◌, Bool, true, false, List, [], ◌∷◌, Option, none, some, ◌==◌, leb,
  if◌then◌else◌, Bytes, length, ◌≡◌, refl, sym, ap, ◌∙◌, subst, ◌⊎◌, inl, inr, arith, Bool-cases,
  Option-cases,
}
use oxigeon.Base.Keyed.{find, remove, holds, remove-none}
use oxigeon.Wire.Message.{ToServer}
use oxigeon.Compute.{ComputeConfig, Outcome, ComputeResult, Live, Bridge}
use oxigeon.Compute.Operations.{
  answer, reap, reap_all, reap_expired, expired_of, running_on, kill_worker, too_late,
}
use oxigeon.Compute.Pool.{
  Event, submits, receives, finishes, cancels, recycles, finds_expired, reaps, step, run,
  start_bridge,
}
use oxigeon.Compute.Once.{Accounts, IsAccounted, answers, issued, weaken}
use oxigeon.Compute.Once.Calls.{
  submit-IsAccounted, cancel-IsAccounted, reap_first-IsAccounted, reap_all-IsAccounted,
}
use oxigeon.Compute.Once.Threads.{receive-IsAccounted, finish-IsAccounted}
use oxigeon.Base.{All}

pub start-IsAccounted : (cfg : ComputeConfig) → IsAccounted 1 (start_bridge cfg)
start-IsAccounted cfg = record {
  positive = omega arith;
  bounded = omega arith;
  total = λ k. ground arith;
}

answer-live : (now id : ℕ) (o : Outcome) (b : Bridge) → (answer now id o b).live ≡ remove id b.live
unfolding answer
answer-live now id o b = elim (Option-cases (find id b.live)) [
  | inl e ↦ rw (e, answer) (sym (remove-none id b.live e))
  | inr (entry, e) ↦ rw (e, answer)
]

reap-live : (now : ℕ) (x : ℕ × Option ℕ) (b : Bridge) → (reap now x b).live ≡ remove x.0 b.live
reap-live now (id, none) b = answer-live now id too_late b
reap-live now (id, some n) b = answer-live now id too_late (kill_worker (some n) b)

-- A live job has a deadline to come, or it was found expired and is still to be answered.
abbrev InTime : ℕ → List (ℕ × Option ℕ) → ℕ × Live → Type 0
InTime now found e = (now < e.1.deadline) ⊎ (1 ≤ holds e.0 found)

grow :
    {bound more next_id : ℕ} {live : List (ℕ × Live)} {results : List ComputeResult}
    → Accounts bound next_id live results
    → bound ≤ more
    → Accounts more next_id live results
grow h l = record { positive = h.positive; bounded = omega (arith, h.bounded); total = h.total }

InTime-remove :
    (now : ℕ) (x : ℕ × Option ℕ) (rest : List (ℕ × Option ℕ)) (live : List (ℕ × Live))
    → All (InTime now (x ∷ rest)) live
    → All (InTime now rest) (remove x.0 live)
InTime-remove now x rest [] h = tt
InTime-remove now x rest ((id, entry) ∷ live) h =
    let rests = InTime-remove now x rest live h.1 in
    elim (Bool-cases (id == x.0)) [ inl e ↦ rw e rests | inr e ↦ rw e (kept e h.0, rests) ]
  where
    kept : (id == x.0) ≡ false → InTime now (x ∷ rest) (id, entry) → InTime now rest (id, entry)
    kept e (inl t) = inl t
    kept e (inr n) = inr (ground arith)

InTime-more :
    (now : ℕ) (x : ℕ × Option ℕ) (found : List (ℕ × Option ℕ)) (live : List (ℕ × Live))
    → All (InTime now found) live
    → All (InTime now (x ∷ found)) live
InTime-more now x found [] h = tt
InTime-more now x found (e ∷ live) h = (more h.0, InTime-more now x found live h.1)
  where
    more : InTime now found e → InTime now (x ∷ found) e
    more (inl t) = inl t
    more (inr n) = inr (omega arith)

InTime-cons :
    (now : ℕ) (e : ℕ × Live) (found : List (ℕ × Option ℕ)) (live : List (ℕ × Live)) (c : Bool)
    → leb e.1.deadline now ≡ c
    → All (InTime now found) live
    → All (InTime now (if c then (e.0, running_on e.1) ∷ found else found)) (e ∷ live)
InTime-cons now e found live true q h =
    (inr (ground arith), InTime-more now (e.0, running_on e.1) found live h)
InTime-cons now e found live false q h = (inl (ground arith), h)

InTime-expired : (now : ℕ) (live : List (ℕ × Live)) → All (InTime now (expired_of now live)) live
unfolding expired_of
InTime-expired now [] = tt
InTime-expired now (e ∷ live) =
    InTime-cons now e (expired_of now live) live (leb e.1.deadline now) refl
      (InTime-expired now live)

InTime-reaped :
    (now : ℕ) (found : List (ℕ × Option ℕ)) (b : Bridge)
    → All (InTime now found) b.live
    → All (InTime now []) (reap_all now found b).live
unfolding reap_all
InTime-reaped now [] b h = h
InTime-reaped now (x ∷ rest) b h = InTime-reaped now rest (reap now x b) (
    subst (λ l. All (InTime now rest) l) (sym (reap-live now x b))
      (InTime-remove now x rest b.live h))

none-InTime :
    (now : ℕ) (live : List (ℕ × Live))
    → All (InTime now []) live
    → All (λ e. now < e.1.deadline) live
none-InTime now [] h = tt
none-InTime now (e ∷ live) h = (in_time h.0, none-InTime now live h.1)
  where
    in_time : InTime now [] e → now < e.1.deadline
    in_time (inl t) = t
    in_time (inr n) = absurd (omega arith)

-- When the watchdog has run, undisturbed, every job that is live has its deadline to come, whatever
-- the state it found.
reap_expired-deadlines :
    (now : ℕ) (b : Bridge) → All (λ e. now < e.1.deadline) (reap_expired now b).live
unfolding reap_expired
reap_expired-deadlines now b =
    none-InTime now (reap_expired now b).live
      (InTime-reaped now (expired_of now b.live) b (InTime-expired now b.live))

All-remove :
    (P : ℕ × Live → Type 0) (key : ℕ) (live : List (ℕ × Live))
    → All P live
    → All P (remove key live)
All-remove P key [] h = tt
All-remove P key (e ∷ live) h = elim (Bool-cases (e.0 == key)) [
  | inl q ↦ rw q (All-remove P key live h.1)
  | inr q ↦ rw q (h.0, All-remove P key live h.1)
]

reaped-All :
    (P : ℕ × Live → Type 0) (now : ℕ) (found : List (ℕ × Option ℕ)) (b : Bridge)
    → All P b.live
    → All P (reap_all now found b).live
unfolding reap_all
reaped-All P now [] b h = h
reaped-All P now (x ∷ rest) b h =
    reaped-All P now rest (reap now x b)
      (subst (λ l. All P l) (sym (reap-live now x b)) (All-remove P x.0 b.live h))

-- No deadline is to come, and none is past.
none_left :
    (now : ℕ) (live : List (ℕ × Live))
    → All (λ e. now < e.1.deadline) live
    → All (λ e. e.1.deadline ≤ now) live
    → live ≡ []
none_left now [] h k = refl
none_left now (e ∷ live) h k = absurd (omega (arith, h.0, k.0))

settled :
    {bound next_id : ℕ} {live : List (ℕ × Live)} {results : List ComputeResult} (id : ℕ)
    → live ≡ []
    → Accounts bound next_id live results
    → answers id results ≡ (if issued id next_id then 1 else 0)
settled {live} {results} id e h =
    sym (ap (λ m. holds id m + answers id results) e ∙ omega arith) ∙ h.total id

reaped_empty :
    (now : ℕ) (b : Bridge) → All (λ e. e.1.deadline ≤ now) b.live → (reap_expired now b).live ≡ []
unfolding reap_expired
reaped_empty now b h =
    none_left now (reap_expired now b).live (reap_expired-deadlines now b)
      (reaped-All (λ e. e.1.deadline ≤ now) now (expired_of now b.live) b h)

module _ (cfg : ComputeConfig) (mudlib game : Bytes) (print : ℕ → Bytes)
    (debug : ToServer → Bytes) where
  step-IsAccounted :
      {bound : ℕ} (e : Event cfg mudlib game print debug) (b : Bridge)
      → IsAccounted bound b
      → bound + 1 < 2 ^ 64
      → IsAccounted (bound + 1) (step cfg mudlib game print debug e b)
  unfolding step
  step-IsAccounted (submits now s) b h l = submit-IsAccounted cfg now s b h l
  step-IsAccounted (receives now n attempt problem) b h l =
      weaken (receive-IsAccounted cfg mudlib game print debug now n attempt problem b h)
  step-IsAccounted (finishes now n incoming) b h l =
      weaken (finish-IsAccounted cfg mudlib game print debug now n incoming b h)
  step-IsAccounted (cancels id problem) b h l = weaken (cancel-IsAccounted id problem b h)
  step-IsAccounted recycles b h l = weaken h
  step-IsAccounted (finds_expired now) b h l = weaken h
  step-IsAccounted (reaps now) b h l = weaken (reap_first-IsAccounted now b h)

  run-Accounts :
      {bound : ℕ} (es : List (Event cfg mudlib game print debug)) (b : Bridge)
      → IsAccounted bound b
      → bound + length es < 2 ^ 64
      → IsAccounted (bound + length es) (run cfg mudlib game print debug es b)
  unfolding run
  run-Accounts {bound} [] b h l = grow h (omega arith)
  run-Accounts {bound} (e ∷ es) b h l =
      grow
        (run-Accounts {bound = bound + 1} es (step cfg mudlib game print debug e b)
          (step-IsAccounted e b h (omega arith)) (omega arith))
        (omega arith)

  -- Whatever happens to a bridge from its start, in whatever order: each id that `submit` has given
  -- to a caller is live or has one result, not both and not two results; no other id is live or has
  -- a result. At most 2^64 - 2 events are looked at, so that no id is given twice.
  pub run-answers :
      (es : List (Event cfg mudlib game print debug)) (id : ℕ)
      → 1 + length es < 2 ^ 64
      → let b = run cfg mudlib game print debug es (start_bridge cfg) in
        holds id b.live + answers id b.results ≡ (if issued id b.next_id then 1 else 0)
  run-answers es id l = (run-Accounts es (start_bridge cfg) (start-IsAccounted cfg) l).total id

  -- The watchdog ends every wait: whatever happened, once it has run at an instant by which every
  -- deadline has passed, nothing is live, and each id that was given to a caller has one result. At
  -- most 2^64 - 2 events came before.
  pub run-reap_expired :
      (es : List (Event cfg mudlib game print debug)) (now : ℕ)
      → 1 + length es < 2 ^ 64
      → All (λ e. e.1.deadline ≤ now) (run cfg mudlib game print debug es (start_bridge cfg)).live
      → (id : ℕ)
      → let b = reap_expired now (run cfg mudlib game print debug es (start_bridge cfg)) in
        (b.live ≡ []) × (answers id b.results ≡ (if issued id b.next_id then 1 else 0))
  unfolding reap_expired
  run-reap_expired es now l late id =
      let b = run cfg mudlib game print debug es (start_bridge cfg) in
      let empty = reaped_empty now b late in
      let h =
        reap_all-IsAccounted now (expired_of now b.live) b
          (run-Accounts es (start_bridge cfg) (start-IsAccounted cfg) l) in
      (empty, settled id empty h)
