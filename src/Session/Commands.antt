-- ===== src/Session/Commands.antt =====
-- src/core/scripting/engine.rs: what a connection tells the Lua thread. A session is its number, and a
-- JSON value its bytes. The commands that no connection sends are left out.
use oxigeon.Base.{ℕ, Bytes}

pub data LuaCommand : Type 0 where
  on_connect on_disconnect on_mxp_ready : ℕ → LuaCommand
  on_input : ℕ → Bytes → LuaCommand
  on_gmcp : ℕ → Bytes → Bytes → LuaCommand
