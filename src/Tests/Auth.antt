-- ===== src/Tests/Auth.antt =====
-- Tests and witnesses for src/core/auth.rs.
use oxigeon.Base.{true, [], ◌∷◌, none, some, ◌≡◌, refl}
use oxigeon.Base.Utf8.{ascii}
use oxigeon.Auth.{AuthWorker, Job, authenticates, rate_limited, submit, enqueue, record_outcome}
use oxigeon.Auth.Locked.{outcomes, run}
use oxigeon.Auth.Lockout.{failures}
use oxigeon.Auth.Rounds.{rounds, rounds-submit}

abbrev idle : AuthWorker
idle = record { queue = []; strikes = [] }

abbrev login : Job
login = record {
  session_id = ascii "7";
  kind = authenticates;
  username = ascii "zaphod";
  password = ascii "heart";
  peer = some 9;
}

abbrev five : AuthWorker
five = failures 9 (0 ∷ 100 ∷ 200 ∷ 300 ∷ 400 ∷ []) idle

refused_for_30 : (submit 400 login five).1 ≡ some (rate_limited 30)
unfolding submit record_outcome
refused_for_30 = refl

admitted_later : (submit 30400 login five).1 ≡ none
unfolding submit record_outcome
admitted_later = refl

-- A login that was queued before the lockout succeeds after it: the lockout is over.
lifted_by_login : (submit 500 login (run (outcomes 450 (some 9) true ∷ []) five)).1 ≡ none
unfolding submit run
lifted_by_login = refl

rounds-submit_example : submit 60 login (rounds 3 50 9 idle) ≡ enqueue login (rounds 3 50 9 idle)
rounds-submit_example = rounds-submit 3 50 60 9 login idle refl
