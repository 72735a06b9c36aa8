-- ===== src/Compute/Worker.antt =====
-- src/core/compute/worker.rs: the child process behind a slot, as the frames written to it and what
-- is read from it. Where the binary is, and what the system says of it, comes from outside.
use oxigeon.Base.{
  ℕ, zero, suc, ◌+◌, ◌-◌, ◌*◌, ◌/◌, ◌%◌, ◌^◌, Bool, true, false, List, [], ◌∷◌, ◌++◌, Option, none,
  some, ◌==◌, if◌then◌else◌, Bytes,
}
use oxigeon.Base.Utf8.{ascii}
use oxigeon.Wire.Value.{nil}
use oxigeon.Wire.Message.{
  ComputeSettings, error, ToWorker, hello, job, cancel, ToServer, ready, broken, finished,
}
use oxigeon.Compute.{ComputeConfig, Job, Outcome, Child}

-- What one call of `read_one` gives.
pub data Incoming : Type 0 where
  message : ToServer → Incoming
  ended : Incoming
  failed : Bytes → Incoming

-- What the system makes of an attempt to start a worker: the error of finding or spawning the
-- binary, or that of writing to it, if any, and what is read first.
pub data Launch : Type 0 where
  not_launched : Bytes → Launch
  launched : Option Bytes → Incoming → Launch

pub data Started : Type 0 where
  up : Child → Started
  down : Bytes → Started

abbrev pub is_running : Option Child → Bool
is_running none = false
is_running (some _) = true

abbrev pub is_broken : Option Child → Bool
is_broken none = true
is_broken (some c) = c.broken

-- `mark_broken`, and what `kill` does to the slot.
abbrev mark_broken : Option Child → Option Child
mark_broken none = none
mark_broken (some c) = some (record c { broken = true })

abbrev pub kill : Option Child → Option Child
kill = mark_broken

unfoldable pub died : Bytes → Outcome
died text = record { ending = error; value = nil; error = some text; logs = [] }

unfoldable settings_of : ComputeConfig → ComputeSettings
settings_of cfg = record {
  instruction_limit = cfg.instruction_limit;
  memory_mb = cfg.memory_mb;
  max_arg_depth = cfg.max_arg_depth;
  max_arg_nodes = cfg.max_arg_nodes;
}

-- Writes a frame; the system's error is given, and also returned.
abbrev pub write : ToWorker → Option Bytes → Option Child → Option Child × Option Bytes
write frame problem none = (none, some (ascii "no worker"))
write frame none (some c) = (some (record c { frames = c.frames ++ frame ∷ [] }), none)
write frame (some e) (some c) = (some (record c { broken = true }), some e)

-- `Handle::cancel`.
unfoldable pub send_cancel : ℕ → Option Bytes → Option Child → Option Child
send_cancel id problem child = (write (cancel id) problem child).0

-- `debug` is how Rust prints a message.
unfoldable handshake : (ToServer → Bytes) → ToWorker → Incoming → Started
handshake debug greeting (message ready) = up (record { broken = false; frames = greeting ∷ [] })
handshake debug greeting (message (broken e)) = down e
handshake debug greeting (message other) =
    down (ascii "worker answered the handshake with " ++ debug other)
handshake debug greeting ended = down (ascii "the worker exited during the handshake")
handshake debug greeting (failed e) = down e

unfoldable pub start : (ToServer → Bytes) → ToWorker → Launch → Started
unfolding handshake
start debug greeting (not_launched e) = down e
start debug greeting (launched (some e) first) = down e
start debug greeting (launched none first) = handshake debug greeting first

-- The first half of `run`: the job is written to the child.
unfoldable pub send_job : ℕ → Job → Option Bytes → Option Child → Option Child × Option Bytes
send_job now j problem child =
    write (job j.id j.module_name j.func j.args (j.deadline - now)) problem child

-- The second half: the loop over what is read, or `none` when it reads on. `print` writes a number
-- in decimal.
unfoldable pub await :
    (ℕ → Bytes) → Job → List Incoming → Option Child → Option (Option Child × Outcome)
unfolding died
await print j [] child = none
await print j (message (finished id ending value problem logs) ∷ rest) child =
    if id == j.id
    then some (child, record { ending = ending; value = value; error = problem; logs = logs })
    else some (
      mark_broken child,
      died (
          ascii "worker answered for job "
          ++ (print id ++ (ascii " while running job " ++ print j.id))),
    )
await print j (message ready ∷ rest) child = await print j rest child
await print j (message (broken e) ∷ rest) child =
    some (mark_broken child, died (ascii "worker reported itself broken: " ++ e))
await print j (ended ∷ rest) child = some (
  mark_broken child,
  died (
      ascii "the worker process ended without answering "
      ++ (226 ∷ 128 ∷ 148 ∷ ascii " it was killed at its deadline, or it crashed")),
)
await print j (failed e ∷ rest) child =
    some (mark_broken child, died (ascii "lost contact with the worker: " ++ e))

-- `a ^ b` on numbers of `w` bits.
abbrev xor : ℕ → ℕ → ℕ → ℕ
xor zero a b = 0
xor (suc w) a b = (a % 2 + b % 2) % 2 + 2 * xor w (a / 2) (b / 2)

unfoldable pub salt : ℕ → ℕ → ℕ
salt n epoch = xor 64 n ((epoch * 256) % 2 ^ 64)

unfoldable pub greeting : ComputeConfig → Bytes → Bytes → ℕ → ℕ → ToWorker
unfolding settings_of salt
greeting cfg mudlib game n epoch = hello (settings_of cfg) mudlib game (salt n epoch)
