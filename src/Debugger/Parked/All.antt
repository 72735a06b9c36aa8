-- ===== src/Debugger/Parked/All.antt =====
-- src/core/scripting/debugger/parked.rs: what becomes of all that is suspended.
use oxigeon.Base.{
  ℕ, zero, suc, ◌+◌, ◌≤◌, Bool, true, false, List, [], ◌∷◌, ◌++◌, Option, none, some, ◌==◌, leb,
  length, ◌≡◌, refl, ap, ◌∙◌, arith, Bool-cases, Option-cases, List-cases, le→leb, inl, inr,
  length-append,
}
use oxigeon.Base.Keyed.{find}
use oxigeon.Debugger.State.Operations.{unpark}
use oxigeon.Debugger.State.{ResumeKind, continue_on}
use oxigeon.Debugger.Hook.Events.{World}
use oxigeon.Debugger.Parked.{
  ParkedDispatch, Engine, Resumed, finished, suspended, failed, hold_collector, park_dispatch,
  take_out, prepared, settled, taken_back, set_dispatch_context, resume, last_id, resume_on,
  resume_all, new_id,
}

abbrev is_suspended : Resumed → Bool
is_suspended suspended = true
is_suspended _ = false

settled-parked :
    (now : ℕ) (entry : ParkedDispatch) (e : Engine) (r : Resumed)
    → is_suspended r ≡ false
    → (settled now entry e r).parked ≡ e.parked
unfolding settled hold_collector
settled-parked now entry e finished h = refl
settled-parked now entry e failed h = refl
settled-parked now entry e suspended h = ground arith

taken_back-parked : (now stop : ℕ) (e : Engine) → (taken_back now stop e).0.parked ≡ e.parked
unfolding taken_back unpark
taken_back-parked now stop e = elim (Option-cases (find stop e.world.state.parked)) [
  | inl q ↦ rw (q, taken_back)
  | inr (p, q) ↦ rw (q, taken_back)
]

prepared-parked :
    (now stop : ℕ) (kind : Option ResumeKind) (entry : ParkedDispatch) (e : Engine)
    → (prepared now stop kind entry e).parked ≡ e.parked
unfolding prepared set_dispatch_context
prepared-parked now stop kind entry e = taken_back-parked now stop e

same_thread : (id : Option ℕ) (d : ParkedDispatch) → (new_id id d).thread ≡ d.thread
same_thread none d = refl
same_thread (some id) d = refl

module _ (run_thread : ParkedDispatch → World → World × Resumed) where
  take_out-last :
      (id : ℕ) (ds : List ParkedDispatch)
      → last_id run_thread ds ≡ some id
      → (x : ParkedDispatch) × (rest : List ParkedDispatch) × (take_out id ds ≡ some (x, rest))
        × (length rest + 1 ≡ length ds)
  unfolding take_out
  take_out-last id [] h = ground arith
  take_out-last id (d ∷ []) h =
      let e : ((d.id == id) ≡ true) = ground arith in (d, [], rw (e, take_out), omega arith)
  take_out-last id (d ∷ c ∷ ds) h =
      let (x, rest, q, l) = take_out-last id (c ∷ ds) h in
      elim (Bool-cases (d.id == id)) [
        | inl e ↦ (d, c ∷ ds, rw (e, take_out), omega arith)
        | inr e ↦ (x, d ∷ rest, rw (e, q, take_out), omega (arith, l))
      ]

  no_last : (ds : List ParkedDispatch) → last_id run_thread ds ≡ none → ds ≡ []
  no_last [] h = refl
  no_last (d ∷ []) h = ground arith
  no_last (d ∷ c ∷ ds) h = ground (arith, no_last (c ∷ ds) h)

  no_parked : (e : Engine) → length e.parked ≤ 0 → e.parked ≡ []
  no_parked e h = elim (List-cases e.parked) [
    | inl q ↦ q
    | inr (d, ds, q) ↦ absurd (omega (arith, ap length q))
  ]

  -- Two amounts of fuel, each enough, come to the same.
  fuels :
      (f g now : ℕ) (e : Engine)
      → length e.parked ≤ f
      → length e.parked ≤ g
      → resume_on run_thread f now e ≡ resume_on run_thread g now e
  unfolding resume_on
  fuels zero zero now e hf hg = refl
  fuels zero (suc g) now e hf hg = rw (ap (last_id run_thread) (no_parked e hf), resume_on)
  fuels (suc f) zero now e hf hg = rw (ap (last_id run_thread) (no_parked e hg), resume_on)
  fuels (suc f) (suc g) now e hf hg = elim (Option-cases (last_id run_thread e.parked)) [
    | inl q ↦ rw (q, resume_on)
    | inr (id, q) ↦
        let e' = resume run_thread now id (some continue_on) e in
        elim (Bool-cases (leb (length e.parked) (length e'.parked))) [
          | inl l ↦ rw (q, l, resume_on)
          | inr l ↦ rw (q, l, resume_on) (fuels f g now e' (ground arith) (ground arith))
        ]
  ]

  -- The loop over what is suspended comes to its end by itself: turns beyond one for each dispatch
  -- that was suspended change nothing, whatever the dispatches do when they run on.
  pub resume_on-resume_all :
      (fuel now : ℕ) (e : Engine)
      → length e.parked ≤ fuel
      → resume_on run_thread fuel now e ≡ resume_all run_thread now e
  unfolding resume_all
  resume_on-resume_all fuel now e h = fuels fuel (length e.parked) now e h (omega arith)

  resume-shorter :
      (now id : ℕ) (e : Engine)
      → ((d : ParkedDispatch) (w : World) → is_suspended (run_thread d w).1 ≡ false)
      → last_id run_thread e.parked ≡ some id
      → length (resume run_thread now id (some continue_on) e).parked + 1 ≡ length e.parked
  unfolding resume
  resume-shorter now id e ends q =
      let (entry, rest, t, l) = take_out-last id e.parked q in
      let e' = prepared now id (some continue_on) entry (record e { parked = rest }) in
      let r = run_thread entry e'.world in
      let same = settled-parked now entry (record e' { world = r.0 }) r.1 (ends entry e'.world) in
      let kept = prepared-parked now id (some continue_on) entry (record e { parked = rest }) in
      rw (t, resume) (omega (arith, l, ap length same, ap length kept))

  resumed_none :
      (fuel now : ℕ) (e : Engine)
      → ((d : ParkedDispatch) (w : World) → is_suspended (run_thread d w).1 ≡ false)
      → length e.parked ≤ fuel
      → (resume_on run_thread fuel now e).parked ≡ []
  unfolding resume_on
  resumed_none zero now e ends h = no_parked e h
  resumed_none (suc fuel) now e ends h = elim (Option-cases (last_id run_thread e.parked)) [
    | inl q ↦ rw (q, resume_on) (no_last e.parked q)
    | inr (id, q) ↦
        let e' = resume run_thread now id (some continue_on) e in
        let less = resume-shorter now id e ends q in
        let l : (leb (length e.parked) (length e'.parked) ≡ false) = ground (arith, less) in
        rw (q, l, resume_on) (resumed_none fuel now e' ends (omega (arith, less)))
  ]

  -- If no dispatch stops again, resuming all leaves nothing suspended.
  resume_all-none :
      (now : ℕ) (e : Engine)
      → ((d : ParkedDispatch) (w : World) → is_suspended (run_thread d w).1 ≡ false)
      → (resume_all run_thread now e).parked ≡ []
  unfolding resume_all
  resume_all-none now e ends = resumed_none (length e.parked) now e ends (omega arith)

  last_of_all :
      (ds : List ParkedDispatch) (d : ParkedDispatch)
      → last_id run_thread (ds ++ d ∷ []) ≡ some d.id
  last_of_all [] d = refl
  last_of_all (c ∷ []) d = refl
  last_of_all (c ∷ b ∷ ds) d = last_of_all (b ∷ ds) d

  -- What is left when it is the last that runs, and stops again.
  resume-again :
      (now : ℕ) (e : Engine) (older : List ParkedDispatch) (newest : ParkedDispatch)
      → take_out newest.id e.parked ≡ some (newest, older)
      → ((w : World) → (run_thread newest w).1 ≡ suspended)
      → (again : ParkedDispatch) × ((resume run_thread now newest.id (some continue_on) e).parked
          ≡ older ++ again ∷ [])
        × (again.thread ≡ newest.thread)
  unfolding resume settled park_dispatch hold_collector
  resume-again now e older newest t stops =
      let e' = prepared now newest.id (some continue_on) newest (record e { parked = older }) in
      let w = (run_thread newest e'.world).0 in
      let kept =
        prepared-parked now newest.id (some continue_on) newest (record e { parked = older }) in
      (
        new_id w.local.parked_id newest,
        rw (t, stops e'.world, resume, settled)
            (ap (λ ds. ds ++ new_id w.local.parked_id newest ∷ []) kept),
        same_thread w.local.parked_id newest,
      )

  one_turn :
      (fuel now id : ℕ) (e : Engine)
      → last_id run_thread e.parked ≡ some id
      → length e.parked ≤ length (resume run_thread now id (some continue_on) e).parked
      → resume_on run_thread (suc fuel) now e ≡ resume run_thread now id (some continue_on) e
  unfolding resume_on
  one_turn fuel now id e q l = rw (q, le→leb _ _ l, resume_on)

  -- If the newest suspended dispatch, whose id no older one has, stops again whenever it is run on,
  -- then resuming all, as is done when a stop is overdue, resumes that one alone: the older ones stay
  -- suspended.
  pub resume_all-stops_again :
      (now : ℕ) (e : Engine) (older : List ParkedDispatch) (newest : ParkedDispatch)
      → e.parked ≡ older ++ newest ∷ []
      → take_out newest.id (older ++ newest ∷ []) ≡ some (newest, older)
      → ((w : World) → (run_thread newest w).1 ≡ suspended)
      → (again : ParkedDispatch) × ((resume_all run_thread now e).parked ≡ older ++ again ∷ [])
        × (again.thread ≡ newest.thread)
  unfolding resume_all
  resume_all-stops_again now e older newest q t stops =
      let (again, left, same) =
        resume-again now e older newest (ap (take_out newest.id) q ∙ t) stops in
      let long = ap length q in
      let sizes = length-append older (newest ∷ []) in
      let grown = ap length left in
      let size : (length e.parked ≡ suc (length older)) = omega (arith, long, sizes) in
      let turn =
        one_turn (length older) now newest.id e
          (ap (last_id run_thread) q ∙ last_of_all older newest)
          (omega (arith, size, grown, length-append older (again ∷ []))) in
      (
        again,
        ap (λ n. (resume_on run_thread n now e).parked) size ∙ ap (λ x. x.parked) turn ∙ left,
        same,
      )
