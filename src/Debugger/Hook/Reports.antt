-- ===== src/Debugger/Hook/Reports.antt =====
-- src/core/scripting/debugger/hook.rs: how often a breakpoint fires, and how much a logpoint says.
use oxigeon.Base.{
  ℕ, zero, suc, ◌+◌, ◌%◌, ◌^◌, ◌<◌, true, false, ◌&&◌, List, [], ◌∷◌, ◌++◌, Option, none, some,
  ◌==◌, ltb, leb, if◌then◌else◌, Bytes, length, ◌≡◌, refl, ap, ◌∙◌, arith, Bool-cases, inl, inr,
  ==_iff, &&-eq-true, length-append,
}
use oxigeon.Telnet.Mxp.State.{equals}
use oxigeon.Debugger.Paths.{chunk_key}
use oxigeon.Debugger.State.Wanted.{equals_self}
use oxigeon.Debugger.State.{BreakpointSpec, output, DebugState}
use oxigeon.Debugger.State.Operations.{emit}
use oxigeon.Debugger.Hook.{
  HookLocal, key_for, looked_up, Vm, pass, stop, emit_logpoint, saturating, limit_note,
}
use oxigeon.Debugger.Hook.Breakpoints.{spec_at, hits_at, set_hits, at_line, gated, fire}

equals-eq : (s t : Bytes) → equals s t ≡ true → s ≡ t
equals-eq [] [] h = refl
equals-eq [] (b ∷ t) h = ground arith
equals-eq (a ∷ s) [] h = ground arith
equals-eq (a ∷ s) (b ∷ t) h =
    let both = &&-eq-true (a == b) (equals s t) h in
    rw ((==_iff a b).0 both.0, equals-eq s t both.1)

-- What is remembered of the last chunk is what would be looked up.
abbrev IsMemo : (Bytes → Bytes) → Option (Bytes × Option Bytes) → Type 0
IsMemo fold none = Unit
IsMemo fold (some (chunk, key)) = key ≡ chunk_key fold chunk

-- The remembered lookup is the lookup: while what is remembered is right, `key_for` gives the key of
-- the chunk, and what it remembers is right again.
key_for-chunk_key :
    (fold : Bytes → Bytes) (chunk : Bytes) (hl : HookLocal)
    → IsMemo fold hl.last_src
    → let (hl', key) = key_for fold chunk hl in
      (key ≡ chunk_key fold chunk) × IsMemo fold hl'.last_src
unfolding key_for looked_up
key_for-chunk_key fold chunk hl m = go hl.last_src refl m
  where
    go :
        (l : Option (Bytes × Option Bytes))
        → hl.last_src ≡ l
        → IsMemo fold l
        → let (hl', key) = key_for fold chunk hl in
          (key ≡ chunk_key fold chunk) × IsMemo fold hl'.last_src
    go none q n = rw (q, key_for, looked_up) (refl, refl)
    go (some (c, k)) q n = elim (Bool-cases (equals c chunk)) [
      | inl e ↦ rw (q, e, key_for) (n ∙ ap (chunk_key fold) (equals-eq c chunk e), m)
      | inr e ↦ rw (q, e, key_for, looked_up) (refl, refl)
    ]

hits_at-set_hits :
    (key : Bytes) (line n : ℕ) (hits : List ((Bytes × ℕ) × ℕ))
    → hits_at key line (set_hits key line n hits) ≡ n
hits_at-set_hits key line n [] = let e = equals_self key in ground arith
hits_at-set_hits key line n (((name, l), m) ∷ rest) =
    elim (Bool-cases (equals name key && (l == line))) [
      | inl e ↦ rw (e, e)
      | inr e ↦ rw (e, e) (hits_at-set_hits key line n rest)
    ]

module _ (fold : Bytes → Bytes) (print : ℕ → Bytes) (vm : Vm) (chunk key : Bytes) (line : ℕ) where
  -- The line is reached so many times, and then what it comes to once more.
  unfoldable pub reach : ℕ → DebugState × HookLocal → DebugState × HookLocal
  unfolding at_line
  reach zero w = w
  reach (suc n) w =
      let (st, hl, out) = at_line fold print vm chunk key line w.0 w.1 in reach n (st, hl)

  abbrev gate : ℕ → BreakpointSpec
  gate needed = record { condition = none; hit_condition = some needed; log_message = none }

  reached-once :
      (needed : ℕ) (st : DebugState) (hl : HookLocal) (n : ℕ)
      → spec_at key line hl.bps ≡ some (gate needed)
      → hits_at key line hl.hits ≡ n
      → n + 1 < 2 ^ 32
      → let (st', hl', out) = at_line fold print vm chunk key line st hl in
        (out ≡ (if leb needed (n + 1) then stop else pass))
        × (hits_at key line hl'.hits ≡ n + 1)
        × (hl'.bps ≡ hl.bps)
  unfolding at_line
  reached-once needed st hl n s h l =
      let hit : ((hits_at key line hl.hits + 1) % 2 ^ 32 ≡ n + 1) = omega (arith, h) in
      elim (Bool-cases (leb needed (n + 1))) [
        | inl e ↦
            rw (s, hit, e, at_line, gated, fire)
              (refl, hits_at-set_hits key line (n + 1) hl.hits, refl)
        | inr e ↦
            rw (s, hit, e, at_line, gated) (refl, hits_at-set_hits key line (n + 1) hl.hits, refl)
      ]

  reached :
      (needed k n : ℕ) (st : DebugState) (hl : HookLocal)
      → spec_at key line hl.bps ≡ some (gate needed)
      → hits_at key line hl.hits ≡ n
      → n + k + 1 < 2 ^ 32
      → let (st', hl') = reach k (st, hl) in
        (spec_at key line hl'.bps ≡ some (gate needed)) × (hits_at key line hl'.hits ≡ n + k)
  unfolding reach
  reached needed zero n st hl s h l = (s, omega (arith, h))
  reached needed (suc k) n st hl s h l =
      let one = reached-once needed st hl n s h (omega arith) in
      let w = at_line fold print vm chunk key line st hl in
      let rest =
        reached needed k (n + 1) w.0 w.1 (ap (spec_at key line) one.2 ∙ s) one.1 (omega arith) in
      (rest.0, omega (arith, rest.1))

  -- A breakpoint with a hit count and nothing else, when its line is reached for the `n + 1`-st time
  -- since the counts were cleared, stops if that many reach the count, and else lets the dispatch
  -- pass: it is ignored one time less than the count says. Counts are below 2^32.
  pub reach-stops :
      (needed n : ℕ) (st : DebugState) (hl : HookLocal)
      → spec_at key line hl.bps ≡ some (gate needed)
      → hl.hits ≡ []
      → n + 1 < 2 ^ 32
      → let (st', hl') = reach n (st, hl) in
        (at_line fold print vm chunk key line st' hl').2
        ≡ (if leb needed (n + 1) then stop else pass)
  reach-stops needed n st hl s h l =
      let before = reached needed n 0 st hl s (ap (hits_at key line) h) (omega arith) in
      let w = reach n (st, hl) in
      (reached-once needed w.0 w.1 n before.0 (omega (arith, before.1)) l).0

-- The logpoints of one dispatch, one after another.
unfoldable report : List Bytes → DebugState × HookLocal → DebugState × HookLocal
unfolding emit_logpoint
report [] w = w
report (text ∷ texts) w = report texts (emit_logpoint w.0 w.1 text)

abbrev pub least : ℕ → ℕ → ℕ
least a b = if leb a b then a else b

emit_logpoint-one :
    (text : Bytes) (st : DebugState) (hl : HookLocal)
    → st.listening ≡ true
    → hl.logpoints + 1 < 2 ^ 32
    → let (st', hl') = emit_logpoint st hl text in
      (hl'.logpoints ≡ hl.logpoints + 1)
      × (st'.listening ≡ true)
      × (length st'.events ≡ length st.events + (if leb (hl.logpoints + 1) 200 then 1 else 0))
unfolding emit_logpoint emit
emit_logpoint-one text st hl h l =
    let n : (saturating 32 hl.logpoints ≡ hl.logpoints + 1) = ground arith in
    elim (Bool-cases (ltb (hl.logpoints + 1) 200)) [
      | inl e ↦
          rw (n, e, h, emit_logpoint, emit)
            (refl, refl, ground (arith, length-append st.events (output text false ∷ [])))
      | inr e ↦ elim (Bool-cases (hl.logpoints + 1 == 200)) [
        | inl f ↦
            rw (n, e, f, h, emit_logpoint, emit)
              (
                refl,
                refl,
                ground (arith, length-append st.events (output (text ++ limit_note) true ∷ [])),
              )
        | inr f ↦ rw (n, e, f, emit_logpoint) (refl, h, ground arith)
      ]
    ]

reported :
    (texts : List Bytes) (st : DebugState) (hl : HookLocal)
    → st.listening ≡ true
    → hl.logpoints + length texts < 2 ^ 32
    → length (report texts (st, hl)).0.events + least hl.logpoints 200
      ≡ length st.events + least (hl.logpoints + length texts) 200
unfolding report
reported [] st hl h l = ground arith
reported (text ∷ texts) st hl h l =
    let one = emit_logpoint-one text st hl h (omega arith) in
    let w = emit_logpoint st hl text in
    let rest = reported texts w.0 w.1 one.1 (omega (arith, one.0)) in
    ground (arith, rest, one.0, one.2)

-- However many logpoints a dispatch reaches, from its first on, with a client to hear of them, the
-- first 200 are reported and no more. There are fewer than 2^32.
report-events :
    (texts : List Bytes) (st : DebugState) (hl : HookLocal)
    → st.listening ≡ true
    → hl.logpoints ≡ 0
    → length texts < 2 ^ 32
    → length (report texts (st, hl)).0.events ≡ length st.events + least (length texts) 200
report-events texts st hl h z l = ground (arith, reported texts st hl h (omega arith))
