-- ===== src/Session.antt =====
-- src/core/session/session.rs: one session, its output and what it has lost.
--
-- `C` is the sender of a tokio channel and `send` its `try_send`, which never waits. The protocol,
-- the address and the time of the connection are only kept, so they are left out. A `HashSet` of
-- permissions is the list of what was inserted. An `AtomicU64` is a number that wraps at 2^64.
pub mod Drops
pub mod Commands
pub mod Handler
use oxigeon.Base.{
  ℕ, ◌+◌, ◌%◌, ◌^◌, Bool, true, false, List, [], ◌∷◌, Option, none, some, ◌==◌, if◌then◌else◌,
  Bytes,
}
use oxigeon.Render.{RichLine}
use oxigeon.Telnet.Capabilities.{ClientCapabilities, default}

pub data SessionState : Type 0 where
  connected authenticating : SessionState
  authenticated : ℕ → SessionState
  playing : ℕ → ℕ → SessionState

unfoldable pub account_id : SessionState → Option ℕ
account_id (authenticated a) = some a
account_id (playing a _) = some a
account_id _ = none

unfoldable pub character_id : SessionState → Option ℕ
character_id (playing _ c) = some c
character_id _ = none

-- A JSON value is its bytes here.
pub data SessionOutput : Type 0 where
  text raw : Bytes → SessionOutput
  rich : RichLine → SessionOutput
  gmcp : Bytes → Bytes → SessionOutput
  start_echo stop_echo disconnect_out : SessionOutput

-- `Ok(())`, `TrySendError::Full` and `TrySendError::Closed`.
pub data Sent : Type 0 where
  sent full closed : Sent

pub record Session (C : Type 0) : Type 0 where
  pub id : ℕ
  pub state : SessionState
  pub capabilities : ClientCapabilities
  pub output_tx : C
  pub permissions : List Bytes
  pub dropped_pending : ℕ
  pub dropped_total : ℕ

-- The identifier is drawn at random, so that it is an argument.
unfoldable pub new : {C : Type 0} → ℕ → C → Session C
new id tx = record {
  id = id;
  state = connected;
  capabilities = default;
  output_tx = tx;
  permissions = [];
  dropped_pending = 0;
  dropped_total = 0;
}

-- `fetch_add(1)`
abbrev pub add_one : ℕ → ℕ
add_one n = (n + 1) % 2 ^ 64

module _ {C : Type 0} (send : SessionOutput → C → C × Sent) (marker : Bytes) where
  abbrev pub notice_sent : Session C → C × Sent → Session C
  notice_sent s (c, sent) = record s { output_tx = c; dropped_pending = 0 }
  notice_sent s (c, full) = record s { output_tx = c }
  notice_sent s (c, closed) = record s { output_tx = c }

  unfoldable pub flush_drop_notice : Session C → Session C
  flush_drop_notice s =
      let r = notice_sent s (send (text marker) s.output_tx) in
      if s.dropped_pending == 0 then s else r

  abbrev pub counted : Session C → C × Sent → Session C × Bool
  counted s (c, sent) = (record s { output_tx = c }, true)
  counted s (c, closed) = (record s { output_tx = c }, false)
  counted s (c, full) = (
    record s {
      output_tx = c;
      dropped_pending = add_one s.dropped_pending;
      dropped_total = add_one s.dropped_total;
    },
    false,
  )

  unfoldable pub try_send : SessionOutput → Session C → Session C × Bool
  unfolding flush_drop_notice
  try_send out s = let s' = flush_drop_notice s in counted s' (send out s'.output_tx)
