-- ===== src/Tests/Relay.antt =====
-- Tests and witnesses for the loop of src/core/network/telnet/relay.rs.
use oxigeon.Base.{
  ℕ, ◌≤◌, true, false, List, [], ◌∷◌, ◌++◌, Option, none, some, ◌≡◌, refl, arith, Bytes, All,
}
use oxigeon.Base.Utf8.{ascii}
use oxigeon.Session
use oxigeon.Session.{Session, SessionOutput, disconnect_out}
use oxigeon.Session.Commands.{LuaCommand, on_connect, on_disconnect, on_input}
use oxigeon.Session.Handler.{full_multi, connect, find}
use oxigeon.Telnet.Constants.{cr, lf}
use oxigeon.Telnet.Parser
use oxigeon.Telnet.Relay.Agree.{opened}
use oxigeon.Telnet.Relay.Loop.{Link, panics, Event, read, output, run, start, serve}
use oxigeon.Telnet.Relay.Loop.Commands.{farewell, serve-announcements}
use oxigeon.Telnet.Relay.Loop.Hears.{IsHeard, announcements}
use oxigeon.Telnet.Relay.Loop.Panics.{stroke, serve-panics}
use oxigeon.Telnet.Relay.Loop.Published.{IsPublished, run-start-Published}

-- No JSON is read.
abbrev unread : Bytes → Option Bytes
unread _ = none

abbrev session : Session ℕ
session = Session.new 4 0

abbrev fresh : Link ℕ
fresh = record {
  conn = opened true;
  parser = Parser.new;
  line_buf = [];
  mxp_announced = false;
  handler = record { sessions = []; multisession_mode = full_multi; max_connections = 1 };
  auth = none;
  commands = [];
  written = [];
}

abbrev visit : List Event
visit = read (ascii "lo") ∷ read (ascii "ok" ++ cr ∷ lf ∷ ascii "n") ∷ output disconnect_out ∷ []

-- A line that comes in two reads is one line, and one that is not ended is not heard.
one_line :
    (serve [] unread [] 4 9 session visit fresh).0.commands
    ≡ on_connect 4 ∷ on_input 4 (ascii "look") ∷ on_disconnect 4 ∷ []
unfolding serve Session.new connect opened Parser.new
one_line = refl

serve-panics_example :
    let r = serve [] unread [] 4 9 session (read (stroke 0xC3) ∷ visit) fresh in
    (r.1 ≡ panics)
    × (find 4 r.0.handler.sessions ≡ some session)
    × (r.0.commands ≡ fresh.commands ++ on_connect 4 ∷ [])
unfolding Session.new opened
serve-panics_example =
    serve-panics [] unread [] 4 9 0xC3 session visit fresh (omega arith) (omega arith) refl refl
      (omega arith)

serve-announcements_example :
    let r = serve [] unread [] 4 9 session visit fresh in
    (more : List LuaCommand) × (r.0.commands
      ≡ (fresh.commands ++ on_connect 4 ∷ []) ++ (more ++ farewell 4 r.1))
    × All (IsHeard 4) more
    × (announcements more ≤ 1)
serve-announcements_example = serve-announcements 4 [] unread [] 9 session visit fresh (omega arith)

run-start-Published_example :
    IsPublished 4
      (run [] unread [] 4 visit
        (start [] unread [] 4 (record fresh { handler = (connect session fresh.handler).0 }))).0
unfolding Session.new opened
run-start-Published_example =
    run-start-Published 4 [] unread [] session visit fresh refl refl (omega arith)
