-- ===== src/Telnet/Relay/Loop/Admitted.antt =====
-- src/core/network/telnet/relay.rs: a session for which there is room.
use oxigeon.Base.{ℕ, ◌<◌, false, List, Option, leb, Bytes, length, ◌≡◌, refl, arith}
use oxigeon.Session.{Session}
use oxigeon.Session.Handler.{connect}
use oxigeon.Telnet.Relay.Loop.{Link, Event, run, start, ended, serve}

abbrev pub lets_in : {C : Type 0} → Session C → Link C → Link C
lets_in session t = record t { handler = (connect session t.handler).0 }

module _ {C : Type 0} (version : Bytes) (from_str : Bytes → Option Bytes) (null : Bytes)
    (id : ℕ) where
  abbrev pub begun : Link C → Link C
  unfolding start
  begun = start version from_str null id

  pub serve-lets_in :
      (address : ℕ) (session : Session C) (es : List Event) (t : Link C)
      → length t.handler.sessions < t.handler.max_connections
      → serve version from_str null id address session es t
        ≡ ended version from_str null id address
            (run version from_str null id es (begun (lets_in session t)))
  unfolding serve connect
  serve-lets_in address session es t room =
      let full : leb t.handler.max_connections (length t.handler.sessions) ≡ false = ground arith in
      rw (full, serve) (rw (full, connect) refl)
