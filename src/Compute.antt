-- ===== src/Compute.antt =====
-- src/core/compute/mod.rs, with `ComputeConfig` of config/server_config.rs: the data of the compute
-- bridge. A `String` is the list of its bytes, an `Instant` a count of milliseconds.
pub mod Roots
pub mod Worker
pub mod Operations
pub mod Pool
pub mod Once
use oxigeon.Base.{ℕ, ◌+◌, ◌%◌, ◌^◌, Bool, List, Option, Bytes}
use oxigeon.Wire.Value.{LuaData}
use oxigeon.Wire.Message.{Ending, ToWorker}

pub record ComputeConfig : Type 0 where
  pub enabled : Bool
  pub workers : ℕ
  pub queue_depth : ℕ
  pub default_deadline_ms : ℕ
  pub max_deadline_ms : ℕ
  pub instruction_limit : ℕ
  pub memory_mb : ℕ
  pub max_arg_depth : ℕ
  pub max_arg_nodes : ℕ
  pub roots : List Bytes

-- Arguments that cannot be copied are refused by the efun, before `submit` is called.
pub data SubmitError : Type 0 where
  bad_module : Bytes → SubmitError
  deadline_too_long : ℕ → ℕ → SubmitError

pub record Job : Type 0 where
  pub id : ℕ
  pub module_name : Bytes
  pub func : Bytes
  pub args : LuaData
  pub deadline : ℕ

-- A job that the pool has accepted and not answered.
pub record Live : Type 0 where
  pub module_name : Bytes
  pub func : Bytes
  pub tag : LuaData
  pub submitted : ℕ
  pub deadline : ℕ
  pub started : Option ℕ
  pub cancelled : Bool
  pub worker : Option ℕ

pub record Stats : Type 0 where
  pub submitted : ℕ
  pub completed : ℕ
  pub failed : ℕ
  pub timed_out : ℕ
  pub refused : ℕ
  pub cancelled : ℕ
  pub wedged : ℕ
  pub spawned : ℕ

-- What `run` reports of a job.
pub record Outcome : Type 0 where
  pub ending : Ending
  pub value : LuaData
  pub error : Option Bytes
  pub logs : List (Bytes × Bytes)

-- `LuaCommand::ComputeResult`.
pub record ComputeResult : Type 0 where
  pub id : ℕ
  pub outcome : Outcome
  pub tag : LuaData
  pub module_name : Bytes
  pub func : Bytes
  pub queued_ms : ℕ
  pub run_ms : ℕ

-- The child process of a slot: whether it is broken, and the frames written to it.
pub record Child : Type 0 where
  pub broken : Bool
  pub frames : List ToWorker

-- A slot with the state of the host thread that owns it: the job in its hands, if any.
pub record Slot : Type 0 where
  pub child : Option Child
  pub at_epoch : Option ℕ
  pub reader : Bool
  pub in_hand : Option Job

-- The bridge; `results` is what was sent to the engine, `expired` what the watchdog has still to
-- answer of the expired jobs it found.
pub record Bridge : Type 0 where
  pub queue : List Job
  pub next_id : ℕ
  pub epoch : ℕ
  pub live : List (ℕ × Live)
  pub stats : Stats
  pub workers : List Slot
  pub results : List ComputeResult
  pub expired : List (ℕ × Option ℕ)

-- A counter of 64 bits.
abbrev pub increment : ℕ → ℕ
increment n = (n + 1) % 2 ^ 64
