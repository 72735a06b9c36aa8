-- ===== src/Debugger/Rings.antt =====
-- src/core/scripting/debugger/trace.rs: the two rings of what was recorded. How a record is written
-- out is left aside: which records are is not.
pub mod Recent
use oxigeon.Base.{
  ℕ, zero, suc, ◌+◌, ◌-◌, ◌%◌, ◌^◌, ◌≤◌, ◌<◌, Bool, true, false, List, [], ◌∷◌, ◌++◌, Option, none,
  some, ◌==◌, ltb, leb, if◌then◌else◌, Bytes, length, take, drop, ◌≡◌, refl, ap, arith, Bool-cases,
  inl, inr, length-append, ◌∙◌, sym, append-nil, append_assoc, length-drop,
}

pub data TraceKind : Type 0 where
  call ret line : TraceKind

pub record TraceRecord : Type 0 where
  pub kind : TraceKind
  pub depth : ℕ
  pub src : Bytes
  pub line : ℕ
  pub name : Option Bytes
  pub micros : ℕ

pub record CommandTiming : Type 0 where
  pub session : Bytes
  pub verb : Bytes
  pub micros : ℕ
  pub lines : ℕ
  pub calls : ℕ
  pub max_depth : ℕ

pub record Rings : Type 0 where
  pub trace : List TraceRecord
  pub timing : List CommandTiming
  pub trace_cap : ℕ
  pub timing_cap : ℕ
  pub dropped : ℕ

abbrev pub default : Rings
default = record { trace = []; timing = []; trace_cap = 0; timing_cap = 0; dropped = 0 }

-- `VecDeque::truncate` keeps the front.
unfoldable set_capacities : ℕ → ℕ → Rings → Rings
set_capacities trace_cap timing_cap r = record r {
  trace_cap = trace_cap;
  timing_cap = timing_cap;
  trace = take trace_cap r.trace;
  timing = take timing_cap r.timing;
}

-- The loop that makes room: what is left, and how many were popped.
unfoldable pub evict {ℓ} : {A : Type ℓ} → ℕ → List A → List A × ℕ
evict cap [] = ([], 0)
evict cap (x ∷ xs) =
    let (left, popped) = evict cap xs in
    if leb cap (suc (length xs)) then (left, popped + 1) else (x ∷ xs, 0)

unfoldable pub push_record : TraceRecord → Rings → Rings
unfolding evict
push_record rec r =
    if r.trace_cap == 0
    then r
    else (let (left, popped) = evict r.trace_cap r.trace in
        record r { trace = left ++ rec ∷ []; dropped = (r.dropped + popped) % 2 ^ 64 })

unfoldable pub push_timing : CommandTiming → Rings → Rings
unfolding evict
push_timing t r =
    if r.timing_cap == 0 then r else record r { timing = (evict r.timing_cap r.timing).0 ++ t ∷ [] }

unfoldable clear : Rings → Rings
clear r = record r { trace = []; timing = []; dropped = 0 }

-- Which are written out: the last `limit`.
abbrev pub recent {ℓ} : {A : Type ℓ} → ℕ → List A → List A
recent limit xs = drop (length xs - limit) xs

abbrev pub push_all : List TraceRecord → Rings → Rings
push_all [] r = r
push_all (rec ∷ recs) r = push_all recs (push_record rec r)
