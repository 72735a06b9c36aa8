-- ===== src/Auth/Rounds.antt =====
-- src/core/auth.rs: what does not lock an address out.
use oxigeon.Base.{
  ℕ, zero, suc, ◌+◌, ◌%◌, ◌^◌, ◌<◌, false, [], ◌∷◌, Option, none, some, leb, ◌≡◌, ap, ◌∙◌, arith,
}
use oxigeon.Base.Keyed.{find}
use oxigeon.Auth.{
  Job, Refused, Strikes, AuthWorker, lockout_remaining, enqueue, submit, forget, or_default, struck,
  record_outcome,
}
use oxigeon.Auth.StrikeMap.{find-remove, find-insert}
use oxigeon.Auth.Lockout.{failures}

-- Rounds of four failures and a disconnection.
abbrev pub rounds : ℕ → ℕ → ℕ → AuthWorker → AuthWorker
rounds zero now ip w = w
rounds (suc n) now ip w =
    rounds n now ip (forget (some ip) (failures ip (now ∷ now ∷ now ∷ now ∷ []) w))

-- So many failures, none of them locking out.
abbrev after_failures : ℕ → Option Strikes
after_failures zero = none
after_failures (suc n) = some (record { count = suc n; until = none })

one_failure :
    (t ip n : ℕ) (w : AuthWorker)
    → find ip w.strikes ≡ after_failures n
    → n + 1 < 5
    → find ip (record_outcome t (some ip) false w).strikes ≡ after_failures (suc n)
unfolding record_outcome struck
one_failure t ip zero w f l =
    rw (f, record_outcome, struck) (find-insert ip (record { count = 1; until = none }) w.strikes)
one_failure t ip (suc n) w f l =
    let m : ((suc n + 1) % 2 ^ 32 ≡ suc (suc n)) = omega arith in
    let b : (leb 5 (suc (suc n)) ≡ false) = ground arith in
    find-insert ip (struck t (or_default (find ip w.strikes))) w.strikes
    ∙ ap (λ o. some (struck t (or_default o))) f
    ∙ rw (m, b, struck)

forgotten :
    (ip n : ℕ) (w : AuthWorker)
    → find ip w.strikes ≡ after_failures (suc n)
    → find ip (forget (some ip) w).strikes ≡ none
unfolding forget
forgotten ip n w f = rw (f, forget) (find-remove ip w.strikes)

-- An address that fails four times and disconnects, over and over, is never locked out: after any
-- number of such rounds there is no lockout, so that a request is refused only if the queue is full.
pub rounds-submit :
    (n now later ip : ℕ) (job : Job) (w : AuthWorker)
    → find ip w.strikes ≡ none
    → submit later (record job { peer = some ip }) (rounds n now ip w)
      ≡ enqueue (record job { peer = some ip }) (rounds n now ip w)
unfolding submit lockout_remaining
rounds-submit zero now later ip job w f =
    let own : ◌≡◌ {A = AuthWorker × Option ℕ} (lockout_remaining later ip w) (w, none) =
      rw (f, lockout_remaining) in
    rw (own, submit)
      (ap {B = AuthWorker × Option Refused} (λ v. enqueue (record job { peer = some ip }) v.0) own)
rounds-submit (suc n) now later ip job w f =
    let w1 = record_outcome now (some ip) false w in
    let w2 = record_outcome now (some ip) false w1 in
    let w3 = record_outcome now (some ip) false w2 in
    let w4 = record_outcome now (some ip) false w3 in
    let f1 = one_failure now ip 0 w f (omega arith) in
    let f2 = one_failure now ip 1 w1 f1 (omega arith) in
    let f3 = one_failure now ip 2 w2 f2 (omega arith) in
    let f4 = one_failure now ip 3 w3 f3 (omega arith) in
    rounds-submit n now later ip job (forget (some ip) w4) (forgotten ip 3 w4 f4)
