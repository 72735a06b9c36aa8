-- ===== src/Tests/Compute.antt =====
-- Tests and witnesses for src/core/compute: a pool of one worker and a queue of one.
use oxigeon.Base.{ℕ, ◌+◌, true, false, List, [], ◌∷◌, none, ◌≡◌, refl, arith, Bytes, if◌then◌else◌}
use oxigeon.Base.Utf8.{ascii}
use oxigeon.Base.Keyed.{holds}
use oxigeon.Wire.Value.{nil}
use oxigeon.Wire.Message.{Ending, ok_ending, timeout, refused, ToServer, ready, finished}
use oxigeon.Compute.{ComputeConfig, Bridge, ComputeResult}
use oxigeon.Compute.Roots.{module_is_allowed, any_of, trimmed, normalized}
use oxigeon.Compute.Roots.Segments.{segments, starts_with, module_is_allowed-segments}
use oxigeon.Compute.Worker.{launched, message, ended}
use oxigeon.Compute.Operations.{Submission, reap_expired}
use oxigeon.Compute.Pool.{
  Event, submits, receives, finishes, cancels, finds_expired, reaps, run, start_bridge,
}
use oxigeon.Compute.Once.{answers, issued}
use oxigeon.Compute.Once.Runs.{run-answers, run-reap_expired}

abbrev pool : ComputeConfig
pool = record {
  enabled = true;
  workers = 1;
  queue_depth = 1;
  default_deadline_ms = 50;
  max_deadline_ms = 100;
  instruction_limit = 0;
  memory_mb = 256;
  max_arg_depth = 64;
  max_arg_nodes = 1000;
  roots = ascii "compute/" ∷ [];
}

abbrev digits : ℕ → Bytes
digits n = n ∷ []

abbrev shown : ToServer → Bytes
shown m = []

abbrev path_job : Submission
path_job = record {
  module_name = ascii "compute.path";
  func = ascii "go";
  args = nil;
  tag = nil;
  deadline_ms = none;
}

dots_are_slashes : module_is_allowed (ascii "/compute/" ∷ []) (ascii "compute.path") ≡ true
unfolding module_is_allowed
dots_are_slashes = refl

no_sibling : module_is_allowed (ascii "compute" ∷ []) (ascii "computed/other") ≡ false
unfolding module_is_allowed
no_sibling = refl

abbrev Happening : Type 0
Happening = Event pool [] [] digits shown

abbrev up_at : ℕ → Happening
up_at now = receives now 0 (launched none (message ready)) none

abbrev done_with : ℕ → ℕ → Happening
done_with now id = finishes now 0 (message (finished id ok_ending nil none []) ∷ [])

-- The first job is done, the second waits, the third is refused.
abbrev busy : List Happening
busy = submits 0 path_job ∷ up_at 1 ∷ submits 2 path_job ∷ submits 3 path_job ∷ done_with 4 1 ∷ []

abbrev after : List Happening → Bridge
after es = run pool [] [] digits shown es (start_bridge pool)

abbrev kinds : List ComputeResult → List (ℕ × Ending)
kinds [] = []
kinds (r ∷ rs) = (r.id, r.outcome.ending) ∷ kinds rs

busy_results : kinds (after busy).results ≡ (3, refused) ∷ (1, ok_ending) ∷ []
unfolding run
busy_results = refl

-- Its deadline over, the second is answered by the watchdog.
busy_reaped :
    kinds (reap_expired 60 (after busy)).results ≡ (3, refused) ∷ (1, ok_ending) ∷ (2, timeout) ∷ []
unfolding run reap_expired
busy_reaped = refl

-- A job cancelled in the queue: the thread that takes it drops it, and nothing is said of it before
-- its deadline, when it is said to have timed out.
abbrev cancelled_early : List Happening
cancelled_early = submits 0 path_job ∷ cancels 1 none ∷ up_at 1 ∷ []

cancelled_silent : ((after cancelled_early).results ≡ []) × ((after cancelled_early).queue ≡ [])
unfolding run
cancelled_silent = (refl, refl)

cancelled_times_out : kinds (reap_expired 60 (after cancelled_early)).results ≡ (1, timeout) ∷ []
unfolding run reap_expired
cancelled_times_out = refl

-- The watchdog finds job 1 expired; before it acts, job 1 ends and its worker takes job 2, whose
-- deadline is to come. The worker that is killed runs job 2.
abbrev late_kill : List Happening
late_kill =
    submits 0 path_job
    ∷ up_at 1
    ∷ submits 40 path_job
    ∷ finds_expired 51
    ∷ done_with 51 1
    ∷ up_at 51
    ∷ reaps 51
    ∷ finishes 52 0 (ended ∷ [])
    ∷ []

late_kill_ends_other : kinds (after late_kill).results ≡ (1, ok_ending) ∷ (2, Ending.error) ∷ []
unfolding run
late_kill_ends_other = refl

run-answers_example :
    holds 3 (after busy).live + answers 3 (after busy).results
    ≡ (if issued 3 (after busy).next_id then 1 else 0)
run-answers_example = run-answers pool [] [] digits shown busy 3 (omega arith)

run-reap_expired_example :
    ((reap_expired 60 (after busy)).live ≡ [])
    × (answers 2 (reap_expired 60 (after busy)).results
        ≡ (if issued 2 (reap_expired 60 (after busy)).next_id then 1 else 0))
unfolding run
run-reap_expired_example =
    run-reap_expired pool [] [] digits shown busy 60 (omega arith) (omega arith, tt) 2

module_is_allowed-segments_example :
    module_is_allowed (ascii "lib" ∷ ascii "/compute/" ∷ []) (ascii "compute.path.a")
    ≡ any_of
        (λ root.
          starts_with (segments (trimmed root)) (segments (normalized (ascii "compute.path.a"))))
        (ascii "lib" ∷ ascii "/compute/" ∷ [])
module_is_allowed-segments_example =
    module_is_allowed-segments (ascii "lib" ∷ ascii "/compute/" ∷ []) (ascii "compute.path.a")
