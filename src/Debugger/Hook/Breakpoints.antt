-- ===== src/Debugger/Hook/Breakpoints.antt =====
-- src/core/scripting/debugger/hook.rs: whether a breakpoint stops the dispatch, and what a logpoint
-- says. `print` writes a number in decimal.
use oxigeon.Base.{
  ℕ, zero, suc, ◌+◌, ◌%◌, ◌^◌, Bool, true, false, ◌&&◌, ◌||◌, List, [], ◌∷◌, ◌++◌, Option, none,
  some, ◌==◌, leb, if◌then◌else◌, Bytes,
}
use oxigeon.Base.Utf8.{ascii}
use oxigeon.Base.Keyed.{find}
use oxigeon.Telnet.Mxp.State.{equals}
use oxigeon.Telnet.Mxp.Reply.{trim}
use oxigeon.Debugger.Paths.{short}
use oxigeon.Debugger.State.{BreakpointSpec, is_plain, Lines, output, DebugState}
use oxigeon.Debugger.State.Operations.{emit}
use oxigeon.Debugger.Hook.{
  HookLocal, key_for, Vm, value, evaluation_failed, met, not_met, condition_failed, BpOutcome, pass,
  stop, log, Frame,
}

-- What stands before the first closing brace, and how many characters that and the brace are.
unfoldable up_to_brace : Bytes → Option (Bytes × ℕ)
up_to_brace [] = none
up_to_brace (c ∷ cs) = elim (up_to_brace cs) [
  | none ↦ if c == b'}' then some ([], 1) else none
  | some (expr, n) ↦ if c == b'}' then some ([], 1) else some (c ∷ expr, n + 1)
]

abbrev expanded : Vm → Bytes → Bytes
expanded vm [] = ascii "{}"
expanded vm (c ∷ cs) = elim (vm.evaluate (c ∷ cs)) [
  | value v ↦ v
  | evaluation_failed e ↦ (c ∷ cs) ++ (ascii "=<" ++ (e ++ ascii ">"))
]

-- The first number says how much of the template is done with.
unfoldable render_from : Vm → ℕ → Bytes → Bytes
unfolding up_to_brace trim
render_from vm skip [] = []
render_from vm (suc skip) (c ∷ cs) = render_from vm skip cs
render_from vm zero (c ∷ cs) = elim (up_to_brace cs) [
  | none ↦ c ∷ render_from vm 0 cs
  | some (expr, n) ↦
      let past = expanded vm (trim expr) ++ render_from vm n cs in
      let literal = c ∷ render_from vm 0 cs in if c == b'{' then past else literal
]

unfoldable pub render_log_message : Vm → Bytes → Bytes
unfolding render_from
render_log_message vm template = render_from vm 0 template

abbrev lines_of : Bytes → List (Bytes × Lines) → Option Lines
lines_of key [] = none
lines_of key ((name, m) ∷ rest) = if equals name key then some m else lines_of key rest

abbrev pub spec_at : Bytes → ℕ → List (Bytes × Lines) → Option BreakpointSpec
spec_at key line files = elim (lines_of key files) [ none ↦ none | some m ↦ find line m ]

abbrev pub hits_at : Bytes → ℕ → List ((Bytes × ℕ) × ℕ) → ℕ
hits_at key line [] = 0
hits_at key line (((name, l), n) ∷ rest) =
    if equals name key && (l == line) then n else hits_at key line rest

abbrev pub set_hits : Bytes → ℕ → ℕ → List ((Bytes × ℕ) × ℕ) → List ((Bytes × ℕ) × ℕ)
set_hits key line n [] = ((key, line), n) ∷ []
set_hits key line n (((name, l), m) ∷ rest) =
    let left = set_hits key line n rest in
    if equals name key && (l == line) then ((name, l), n) ∷ rest else ((name, l), m) ∷ left

abbrev pub enough : Option ℕ → ℕ → Bool
enough none hits = true
enough (some needed) hits = leb needed hits

unfoldable pub fire : Vm → BreakpointSpec → BpOutcome
unfolding render_log_message
fire vm spec = elim spec.log_message [ none ↦ stop | some msg ↦ log (render_log_message vm msg) ]

module _ (fold : Bytes → Bytes) (print : ℕ → Bytes) where
  unfoldable failure_text : Bytes → ℕ → Bytes → Bytes → Bytes
  unfolding short
  failure_text chunk line problem expr =
      ascii "Breakpoint condition failed at "
      ++ (short chunk
          ++ (ascii ":"
              ++ (print line
                  ++ (ascii " — "
                      ++ (problem ++ (ascii "\r\n  condition: " ++ (expr ++ ascii "\r\n")))))))

  -- The gates of a breakpoint that is not plain.
  unfoldable pub gated : Vm → Bytes → ℕ → BreakpointSpec → ℕ → DebugState → DebugState × BpOutcome
  unfolding fire failure_text emit
  gated vm chunk line spec hits st =
      if enough spec.hit_condition hits
      then elim spec.condition [
        | none ↦ (st, fire vm spec)
        | some expr ↦ elim (vm.eval_condition expr) [
          | met ↦ (st, fire vm spec)
          | not_met ↦ (st, pass)
          | condition_failed problem ↦
              (emit (output (failure_text chunk line problem expr) true) st, fire vm spec)
        ]
      ]
      else (st, pass)

  -- The breakpoint on a line of a file, given its key.
  unfoldable pub at_line :
      Vm → Bytes → Bytes → ℕ → DebugState → HookLocal → DebugState × HookLocal × BpOutcome
  unfolding gated
  at_line vm chunk key line st hl = elim (spec_at key line hl.bps) [
    | none ↦ (st, hl, pass)
    | some spec ↦
        if is_plain spec
        then (st, hl, stop)
        else (let hits = (hits_at key line hl.hits + 1) % 2 ^ 32 in
            let (st', out) = gated vm chunk line spec hits st in
            (st', record hl { hits = set_hits key line hits hl.hits }, out))
  ]

  -- With the key of the file, if the chunk is one.
  unfoldable pub at_key :
      Vm → Bytes → ℕ → DebugState → HookLocal × Option Bytes → DebugState × HookLocal × BpOutcome
  unfolding at_line
  at_key vm chunk line st (hl, none) = (st, hl, pass)
  at_key vm chunk line st (hl, some key) = at_line vm chunk key line st hl

  abbrev pub is_nil {ℓ} : {A : Type ℓ} → List A → Bool
  is_nil [] = true
  is_nil (_ ∷ _) = false

  -- A line of 0 is no line; lines are of 32 bits.
  unfoldable pub at_source :
      Vm → Option ℕ → Option Bytes → DebugState → HookLocal → DebugState × HookLocal × BpOutcome
  unfolding key_for at_key
  at_source vm none chunk st hl = (st, hl, pass)
  at_source vm (some zero) chunk st hl = (st, hl, pass)
  at_source vm (some (suc l)) none st hl = (st, hl, pass)
  at_source vm (some (suc l)) (some chunk) st hl =
      at_key vm chunk (suc l % 2 ^ 32) st (key_for fold chunk hl)

  unfoldable pub at_breakpoint :
      Vm → Frame → DebugState → HookLocal → DebugState × HookLocal × BpOutcome
  unfolding at_source
  at_breakpoint vm frame st hl =
      if is_nil hl.bps || frame.is_c
      then (st, hl, pass)
      else at_source vm frame.current_line frame.chunk st hl
