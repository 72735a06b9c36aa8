-- ===== src/Debugger/State/Wanted.antt =====
-- src/core/scripting/debugger/state.rs: what `republish` stores, said of its inputs.
use oxigeon.Base.{
  ℕ, Bool, true, false, not, ◌||◌, ◌&&◌, List, [], ◌∷◌, ◌++◌, map, Option, none, some, ◌==◌, ltb,
  leb, Bytes, length, length-append, ◌≡◌, refl, ap, ◌∙◌, arith, if◌then◌else◌,
}
use oxigeon.Telnet.Mxp.State.{equals}
use oxigeon.Debugger.State.{
  Want, wants_any, TraceMode, off, timing_only, calls, lines, TraceConfig, covers, config_wants,
  mode_wants, Lines, is_off, nothing, DebugState,
}
use oxigeon.Debugger.State.Operations.{wanted, republish, total_lines}

-- Each line with a breakpoint, with its file.
abbrev pub points : List (Bytes × Lines) → List (Bytes × ℕ)
points [] = []
points ((file, m) ∷ rest) = map (λ l. (file, l.0)) m ++ points rest

abbrev is_recorded : TraceMode → Bool
is_recorded calls = true
is_recorded lines = true
is_recorded _ = false

abbrev has : List Bool → Bool
has [] = false
has (b ∷ bs) = b || has bs

-- Timing is wanted exactly when some dispatch is traced, and a trace when more than its time is.
abbrev pub Follows : Want → TraceConfig → Type 0
Follows want cfg =
    ((session : Option Bytes) → covers cfg session ≡ true → want.timing ≡ true)
    × (want.timing ≡ true → (session : Option Bytes) × (covers cfg session ≡ true))
    × (want.trace ≡ want.timing && is_recorded cfg.mode)

-- A bit for what is traced, for a client and for a budget, and the hook armed when there is one.
abbrev pub IsWanted : DebugState → Type 0
IsWanted st =
    Follows st.want st.cfg
    × (st.want.breaks ≡ leb 1 st.clients)
    × (st.want.budget ≡ not (st.instruction_limit == 0))
    × (st.want.steps ≡ false)
    × (st.armed
        ≡ has
            (st.want.trace ∷ st.want.timing ∷ st.want.breaks ∷ st.want.steps ∷ st.want.budget ∷ []))

has-wants_any :
    (w : Want) → wants_any w ≡ has (w.trace ∷ w.timing ∷ w.breaks ∷ w.steps ∷ w.budget ∷ [])
has-wants_any w = ground arith

length-lines :
    (file : Bytes) (m : Lines) → length {A = Bytes × ℕ} (map (λ l. (file, l.0)) m) ≡ length m
length-lines file [] = refl
length-lines file (l ∷ m) = omega (arith, length-lines file m)

pub length-points : (files : List (Bytes × Lines)) → total_lines files ≡ length (points files)
length-points [] = refl
length-points ((file, m) ∷ rest) = omega (
  arith,
  length-points rest,
  length-append (map (λ l. (file, l.0)) m) (points rest),
  length-lines file m,
)

pub equals_self : (s : Bytes) → equals s s ≡ true
equals_self [] = refl
equals_self (a ∷ s) = ground (arith, equals_self s)

abbrev config : TraceMode → Bool → List Bytes → TraceConfig
config mode all sessions = record { mode = mode; all_sessions = all; sessions = sessions }

-- With a mode, and a first session that is named, that session is covered.
covers-first :
    (mode : TraceMode) (x : Bytes) (xs : List Bytes)
    → is_off mode ≡ false
    → covers (config mode false (x ∷ xs)) (some x) ≡ true
unfolding covers
covers-first mode x xs h = rw (h, equals_self x) refl

covers_nobody :
    (mode : TraceMode) (session : Option Bytes) → covers (config mode false []) session ≡ true → ⊥
unfolding covers
covers_nobody mode none e = ground (arith, e)
covers_nobody mode (some s) e = ground (arith, e)

config_wants-Follows :
    (mode : TraceMode) (all : Bool) (sessions : List Bytes)
    → Follows (config_wants (config mode all sessions)) (config mode all sessions)
unfolding config_wants covers
config_wants-Follows off true ss = (λ s e. e, λ e. absurd cc, refl)
config_wants-Follows off false [] = (λ s e. e, λ e. absurd cc, refl)
config_wants-Follows off false (x ∷ xs) = (λ s e. e, λ e. absurd cc, refl)
config_wants-Follows timing_only true ss = (λ s e. refl, λ e. (none, refl), refl)
config_wants-Follows timing_only false [] =
    (λ s e. absurd (covers_nobody timing_only s e), λ e. absurd cc, refl)
config_wants-Follows timing_only false (x ∷ xs) =
    (λ s e. refl, λ e. (some x, covers-first timing_only x xs refl), refl)
config_wants-Follows calls true ss = (λ s e. refl, λ e. (none, refl), refl)
config_wants-Follows calls false [] =
    (λ s e. absurd (covers_nobody calls s e), λ e. absurd cc, refl)
config_wants-Follows calls false (x ∷ xs) =
    (λ s e. refl, λ e. (some x, covers-first calls x xs refl), refl)
config_wants-Follows lines true ss = (λ s e. refl, λ e. (none, refl), refl)
config_wants-Follows lines false [] =
    (λ s e. absurd (covers_nobody lines s e), λ e. absurd cc, refl)
config_wants-Follows lines false (x ∷ xs) =
    (λ s e. refl, λ e. (some x, covers-first lines x xs refl), refl)

wanted-Follows : (st : DebugState) → Follows (wanted st) st.cfg
unfolding wanted
wanted-Follows st = config_wants-Follows st.cfg.mode st.cfg.all_sessions st.cfg.sessions

-- No trace configuration asks for a breakpoint, a step or a budget.
config_wants-bits :
    (cfg : TraceConfig)
    → ((config_wants cfg).breaks ≡ false)
      × ((config_wants cfg).budget ≡ false)
      × ((config_wants cfg).steps ≡ false)
unfolding config_wants
config_wants-bits cfg = go cfg.mode _
  where
    go :
        (mode : TraceMode) (b : Bool)
        → let w : Want = if b then mode_wants mode else nothing in
          (w.breaks ≡ false) × (w.budget ≡ false) × (w.steps ≡ false)
    go mode false = (refl, refl, refl)
    go off true = (refl, refl, refl)
    go timing_only true = (refl, refl, refl)
    go calls true = (refl, refl, refl)
    go lines true = (refl, refl, refl)

pub republish-IsWanted : (st : DebugState) → IsWanted (republish st)
unfolding republish wanted
republish-IsWanted st =
    let bits = config_wants-bits st.cfg in
    (
      wanted-Follows st,
      ap (λ b. b || ltb 0 st.clients) bits.0 ∙ ground arith,
      ap (λ b. b || ltb 0 st.instruction_limit) bits.1 ∙ ground arith,
      bits.2,
      has-wants_any (wanted st),
    )
