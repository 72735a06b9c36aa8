-- ===== src/Auth/Locked.antt =====
-- src/core/auth.rs: an address that is locked out stays so.
use oxigeon.Base.{
  ℕ, ◌+◌, ◌-◌, ◌/◌, ◌%◌, ◌^◌, ◌≤◌, ◌<◌, Bool, true, false, List, [], ◌∷◌, Option, none, some, ◌==◌,
  ltb, leb, ◌≡◌, ◌≢◌, sym, ap, ◌∙◌, arith, Bool-cases, Option-cases, inl, inr, ==_iff,
}
use oxigeon.Base.Keyed.{find}
use oxigeon.Auth.{
  Job, Refused, rate_limited, Strikes, AuthWorker, fresh, lockout_remaining, enqueue, submit,
  forget, or_default, struck, record_outcome, lockout,
}
use oxigeon.Auth.StrikeMap.{find-insert_other, find-remove_other, find-insert_at}

-- An instant until which the address is locked out at least.
abbrev pub IsLocked : ℕ → ℕ → AuthWorker → Type 0
IsLocked ip t w =
    (s : Strikes) × (u : ℕ) × (find ip w.strikes ≡ some s) × (s.until ≡ some u) × (t ≤ u)

pub data Event : Type 0 where
  submits : ℕ → Job → Event
  outcomes : ℕ → Option ℕ → Bool → Event
  forgets : Option ℕ → Event

unfoldable pub step : Event → AuthWorker → AuthWorker
unfolding submit record_outcome forget
step (submits now job) w = (submit now job w).0
step (outcomes now peer ok) w = record_outcome now peer ok w
step (forgets peer) w = forget peer w

unfoldable pub run : List Event → AuthWorker → AuthWorker
unfolding step
run [] w = w
run (e ∷ es) w = run es (step e w)

-- Before an instant, at most a lockout before it, and with no login from the address.
abbrev pub Within : ℕ → ℕ → Event → Type 0
Within ip t (submits now job) = now < t
Within ip t (outcomes now peer true) = peer ≢ some ip
Within ip t (outcomes now peer false) = (now < t) × (t ≤ now + lockout)
Within ip t (forgets peer) = Unit

abbrev until_of : Option Strikes → Option ℕ
until_of none = none
until_of (some s) = s.until

abbrev or_none : Option ℕ → ℕ
or_none none = 0
or_none (some n) = n

some_not_none : (u : ℕ) → some u ≢ none
some_not_none u h = ground arith

lockout_remaining-own :
    (now ip t : ℕ) (w : AuthWorker)
    → (h : IsLocked ip t w) → now < t
    → ◌≡◌ {A = AuthWorker × Option ℕ} (lockout_remaining now ip w) (w, some (h.1 - now))
unfolding lockout_remaining
lockout_remaining-own now ip t w (s, u, f, e, l) h =
    let b : (ltb now u ≡ true) = ground (arith, l) in rw (f, e, b, lockout_remaining)

-- A locked address is turned away at once, and nothing changes.
pub submit-locked :
    (now ip t : ℕ) (job : Job) (w : AuthWorker)
    → job.peer ≡ some ip
    → (h : IsLocked ip t w) → now < t
    → ◌≡◌ {A = AuthWorker × Option Refused}
        (submit now job w)
        (w, some (rate_limited ((h.1 - now) / 1000)))
unfolding submit
submit-locked now ip t job w p h l =
    let own = lockout_remaining-own now ip t w h l in
    rw (p, own, submit)
      (ap {B = AuthWorker × Option Refused} (λ v. (v.0, some (rate_limited ((h.1 - now) / 1000))))
        own)

enqueue-strikes : (job : Job) (w : AuthWorker) → (enqueue job w).0.strikes ≡ w.strikes
unfolding enqueue
enqueue-strikes job w = ground arith

-- The strikes after a submission are those after the lookup.
submit-strikes :
    (now ip : ℕ) (job : Job) (w : AuthWorker)
    → job.peer ≡ some ip
    → (submit now job w).0.strikes ≡ (lockout_remaining now ip w).0.strikes
unfolding submit
submit-strikes now ip job w p = elim (Option-cases (lockout_remaining now ip w).1) [
  | inl e ↦ rw (p, e, submit) (enqueue-strikes job (lockout_remaining now ip w).0)
  | inr (ms, e) ↦ rw (p, e, submit)
]

-- Whose submission it is, a locked address stays locked.
lockout_remaining-locked :
    (now ip other t : ℕ) (w : AuthWorker)
    → IsLocked ip t w
    → now < t
    → find ip (lockout_remaining now other w).0.strikes ≡ find ip w.strikes
unfolding lockout_remaining
lockout_remaining-locked now ip other t w (s, u, f, e, l) h =
    elim (Option-cases (find other w.strikes)) [
      | inl q ↦ rw (q, lockout_remaining)
      | inr (s', q) ↦ elim (Option-cases s'.until) [
        | inl r ↦ rw (q, r, lockout_remaining)
        | inr (u', r) ↦ elim (Bool-cases (ltb now u')) [
          | inl b ↦ rw (q, r, b, lockout_remaining)
          | inr b ↦ elim (Bool-cases (other == ip)) [
            | inl same ↦
                let until =
                  ap until_of (sym q ∙ ap (λ k. find k w.strikes) ((==_iff other ip).0 same) ∙ f) in
                let at = ap or_none (sym r ∙ until ∙ e) in absurd (ground (arith, at, l))
            | inr different ↦
                rw (q, r, b, lockout_remaining)
                  (find-insert_other ip other fresh w.strikes different)
          ]
        ]
      ]
    ]

stays :
    (ip t : ℕ) (w w' : AuthWorker)
    → find ip w'.strikes ≡ find ip w.strikes
    → IsLocked ip t w
    → IsLocked ip t w'
stays ip t w w' q (s, u, f, e, l) = (s, u, q ∙ f, e, l)

submit-IsLocked :
    (now ip t : ℕ) (job : Job) (w : AuthWorker)
    → now < t
    → IsLocked ip t w
    → IsLocked ip t (submit now job w).0
unfolding submit
submit-IsLocked now ip t job w l h = elim (Option-cases job.peer) [
  | inl p ↦
      stays ip t w (submit now job w).0 (ap (find ip) (rw (p, submit) (enqueue-strikes job w))) h
  | inr (other, p) ↦
      stays ip t w (submit now job w).0
        (ap (find ip) (submit-strikes now other job w p)
          ∙ lockout_remaining-locked now ip other t w h l)
        h
]

-- One failure more: no earlier end.
struck-until :
    (now u t : ℕ) (s : Strikes)
    → s.until ≡ some u
    → t ≤ u
    → now < t
    → t ≤ now + lockout
    → (v : ℕ) × ((struck now s).until ≡ some v) × (t ≤ v)
unfolding struck
struck-until now u t s e l h k = elim (Bool-cases (leb 5 ((s.count + 1) % 2 ^ 32))) [
  | inl b ↦ (now + lockout, rw (b, struck), k)
  | inr b ↦ (u, rw (b, struck) e, l)
]

outcome-IsLocked :
    (now ip t : ℕ) (peer : Option ℕ) (ok : Bool) (w : AuthWorker)
    → Within ip t (outcomes now peer ok)
    → IsLocked ip t w
    → IsLocked ip t (record_outcome now peer ok w)
unfolding record_outcome
outcome-IsLocked now ip t none ok w i h = h
outcome-IsLocked now ip t (some other) true w i h = elim (Bool-cases (other == ip)) [
  | inl e ↦ absurd (i (ap some ((==_iff other ip).0 e)))
  | inr e ↦
      stays ip t w (record_outcome now (some other) true w) (find-remove_other ip other w.strikes e)
        h
]
outcome-IsLocked now ip t (some other) false w i (s, u, f, e, l) = elim (Bool-cases (other == ip)) [
  | inr d ↦
      stays ip t w (record_outcome now (some other) false w)
        (find-insert_other ip other (struck now (or_default (find other w.strikes))) w.strikes d)
        (s, u, f, e, l)
  | inl d ↦
      let same = (==_iff other ip).0 d in
      let (v, q, m) = struck-until now u t s e l i.0 i.1 in
      let entry = struck now (or_default (find other w.strikes)) in
      let here = ap (λ o. struck now (or_default o)) (ap (λ k. find k w.strikes) same ∙ f) in
      (entry, v, find-insert_at ip other entry w.strikes d, ap (λ y. y.until) here ∙ q, m)
]

forget-IsLocked :
    (ip t : ℕ) (peer : Option ℕ) (w : AuthWorker) → IsLocked ip t w → IsLocked ip t (forget peer w)
unfolding forget
forget-IsLocked ip t none w h = h
forget-IsLocked ip t (some other) w (s, u, f, e, l) = elim (Option-cases (find other w.strikes)) [
  | inl q ↦ rw (q, forget) (s, u, f, e, l)
  | inr (s', q) ↦ elim (Option-cases s'.until) [
    | inr (u', r) ↦ rw (q, r, forget) (s, u, f, e, l)
    | inl r ↦ elim (Bool-cases (other == ip)) [
      | inr d ↦ rw (q, r, forget) (s, u, find-remove_other ip other w.strikes d ∙ f, e, l)
      | inl d ↦
          let until =
            ap until_of (sym q ∙ ap (λ k. find k w.strikes) ((==_iff other ip).0 d) ∙ f) in
          absurd (some_not_none u (sym e ∙ sym until ∙ r))
    ]
  ]
]

pub step-IsLocked :
    (ip t : ℕ) (e : Event) (w : AuthWorker)
    → Within ip t e
    → IsLocked ip t w
    → IsLocked ip t (step e w)
unfolding step
step-IsLocked ip t (submits now job) w i h = submit-IsLocked now ip t job w i h
step-IsLocked ip t (outcomes now peer ok) w i h = outcome-IsLocked now ip t peer ok w i h
step-IsLocked ip t (forgets peer) w i h = forget-IsLocked ip t peer w h
