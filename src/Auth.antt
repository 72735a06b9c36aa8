-- ===== src/Auth.antt =====
-- src/core/auth.rs: the pool that hashes passwords, and who is locked out of it. An address is a
-- number, an instant or a duration a count of milliseconds; the account store and its hashing come
-- from outside, as whether a job succeeds.
pub mod StrikeMap
pub mod Locked
pub mod Lockout
pub mod Rounds
use oxigeon.Base.{
  ℕ, zero, suc, ◌+◌, ◌-◌, ◌/◌, ◌%◌, ◌^◌, Bool, true, false, List, [], ◌∷◌, ◌++◌, Option, none, some,
  ◌==◌, ltb, leb, if◌then◌else◌, Bytes, length,
}
use oxigeon.Base.Keyed.{find, remove}

pub data AuthKind : Type 0 where
  authenticates creates_account : AuthKind

pub data Refused : Type 0 where
  busy : Refused
  rate_limited : ℕ → Refused

pub record Job : Type 0 where
  pub session_id : Bytes
  pub kind : AuthKind
  pub username : Bytes
  pub password : Bytes
  pub peer : Option ℕ

pub record Strikes : Type 0 where
  pub count : ℕ
  pub until : Option ℕ

abbrev max_strikes : ℕ
max_strikes = 5

abbrev pub lockout : ℕ
lockout = 30000

abbrev pub queue_depth : ℕ
queue_depth = 32

pub record AuthWorker : Type 0 where
  pub queue : List Job
  pub strikes : List (ℕ × Strikes)

abbrev pub insert : ℕ → Strikes → List (ℕ × Strikes) → List (ℕ × Strikes)
insert ip s m = (ip, s) ∷ remove ip m

abbrev pub fresh : Strikes
fresh = record { count = 0; until = none }

-- What is left of a lockout; one that is over is cleared.
unfoldable pub lockout_remaining : ℕ → ℕ → AuthWorker → AuthWorker × Option ℕ
lockout_remaining now ip w = elim (find ip w.strikes) [
  | none ↦ (w, none)
  | some s ↦ elim s.until [
    | none ↦ (w, none)
    | some t ↦
        if ltb now t
        then (w, some (t - now))
        else (record w { strikes = insert ip fresh w.strikes }, none)
  ]
]

unfoldable pub enqueue : Job → AuthWorker → AuthWorker × Option Refused
enqueue job w =
    if ltb (length w.queue) queue_depth
    then (record w { queue = w.queue ++ job ∷ [] }, none)
    else (w, some busy)

unfoldable pub submit : ℕ → Job → AuthWorker → AuthWorker × Option Refused
unfolding lockout_remaining enqueue
submit now job w = elim job.peer [
  | none ↦ enqueue job w
  | some ip ↦
      let (w', left) = lockout_remaining now ip w in
      elim left [ some ms ↦ (w', some (rate_limited (ms / 1000))) | none ↦ enqueue job w' ]
]

unfoldable pub forget : Option ℕ → AuthWorker → AuthWorker
forget none w = w
forget (some ip) w = elim (find ip w.strikes) [
  | none ↦ w
  | some s ↦ elim s.until [ none ↦ record w { strikes = remove ip w.strikes } | some _ ↦ w ]
]

abbrev pub or_default : Option Strikes → Strikes
or_default none = fresh
or_default (some s) = s

unfoldable pub struck : ℕ → Strikes → Strikes
struck now s =
    let count = (s.count + 1) % 2 ^ 32 in
    if leb max_strikes count
    then record { count = count; until = some (now + lockout) }
    else record { count = count; until = s.until }

unfoldable pub record_outcome : ℕ → Option ℕ → Bool → AuthWorker → AuthWorker
unfolding struck
record_outcome now none ok w = w
record_outcome now (some ip) true w = record w { strikes = remove ip w.strikes }
record_outcome now (some ip) false w = record w {
  strikes = insert ip (struck now (or_default (find ip w.strikes))) w.strikes;
}

-- A worker takes the first job, and is done with it: `ok` is what the store says.
unfoldable run_job : ℕ → Bool → AuthWorker → AuthWorker
unfolding record_outcome
run_job now ok w = elim w.queue [
  | [] ↦ w
  | job ∷ rest ↦ record_outcome now job.peer ok (record w { queue = rest })
]
