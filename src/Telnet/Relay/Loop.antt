-- ===== src/Telnet/Relay/Loop.antt =====
-- src/core/network/telnet/relay.rs: one client, from its registration to the end.
--
-- The task is a machine that events befall, in the order in which `select!` takes them. A read is not
-- empty, but at the end of the stream. The text of `line_buf` and of input is the list of the codes of
-- its characters. A panic ends the task where it stands.
pub mod Admitted
pub mod Lines
pub mod Hears
pub mod Commands
pub mod Published
pub mod Panics
use oxigeon.Base.{
  ℕ, Bool, true, false, ◌&&◌, ◌||◌, List, [], ◌∷◌, ◌++◌, Option, none, some, ◌==◌, if◌then◌else◌,
  Bytes,
}
use oxigeon.Base.Utf8.{ascii}
use oxigeon.Auth.{AuthWorker, forget}
use oxigeon.Render.{RichLine, to_mxp, to_text}
use oxigeon.Session.{SessionOutput, Session}
use oxigeon.Session.Commands.{
  LuaCommand, on_connect, on_disconnect, on_mxp_ready, on_input, on_gmcp,
}
use oxigeon.Session.Handler
use oxigeon.Session.Handler.{SessionHandler, publish_capabilities}
use oxigeon.Telnet.Constants.{cr, lf}
use oxigeon.Telnet.Codec.{decode_line, encode_text, encode_gmcp}
use oxigeon.Telnet.Mxp.{Text, strip_line_modes}
use oxigeon.Telnet.Mxp.Reply.{MxpReply, parse_reply, apply}
use oxigeon.Telnet.Parser
use oxigeon.Telnet.Parser.{
  TelnetEvent, TelnetParser, text, command, negotiate, subnegotiation, feed, feed_in, flush,
  flush_data,
}
use oxigeon.Telnet.Relay.{Conn, on_negotiate, handle_subnegotiation}
use oxigeon.Telnet.Relay.Connection.{
  start_echo, stop_echo, send_initial_negotiations, send_game_text, send_game_prompt,
}

-- The variables of the task, what it shares, what it has told the game, and what it has written.
pub record Link (C : Type 0) : Type 0 where
  pub conn : Conn
  pub parser : TelnetParser
  pub line_buf : Text
  pub mxp_announced : Bool
  pub handler : SessionHandler C
  pub auth : Option AuthWorker
  pub commands : List LuaCommand
  pub written : Bytes

-- Behind an event the loop goes on, or breaks, or the task has panicked.
pub data Standing : Type 0 where
  goes_on breaks panics : Standing

pub data Event : Type 0 where
  read : Bytes → Event
  read_failed : Event
  output : SessionOutput → Event
  output_closed : Event

-- The lines that the loop drains, each without the newline it ends with, and what stays.
unfoldable pub cut_lines : Text → List Text × Text
cut_lines [] = ([], [])
cut_lines (c ∷ cs) =
    let (lines, rest) = cut_lines cs in
    if c == lf
    then ([] ∷ lines, rest)
    else elim lines [ [] ↦ ([], c ∷ rest) | l ∷ ls ↦ ((c ∷ l) ∷ ls, rest) ]

abbrev pub is_nil : Text → Bool
is_nil [] = true
is_nil (_ ∷ _) = false

-- `trim_end_matches` of line ends.
unfoldable pub trim_end : Text → Text
trim_end [] = []
trim_end (c ∷ cs) =
    let rest = trim_end cs in if is_nil rest && ((c == cr) || (c == lf)) then [] else c ∷ rest

module _ {C : Type 0} where
  abbrev pub send : LuaCommand → Link C → Link C
  send c t = record t { commands = t.commands ++ c ∷ [] }

  abbrev pub write : Bytes → Link C → Link C
  write bytes t = record t { written = t.written ++ bytes }

  -- What is written goes out, or the task panics.
  abbrev pub write_or_panic : Option Bytes → Link C → Link C × Standing
  write_or_panic none t = (t, panics)
  write_or_panic (some bytes) t = (write bytes t, goes_on)

  abbrev pub changed : Conn × Bytes → Link C → Link C
  changed (c, out) t = record t { conn = c; written = t.written ++ out }

  abbrev pub publish : ℕ → Link C → Link C
  unfolding publish_capabilities
  publish id t = record t { handler = publish_capabilities id t.conn.capabilities t.handler }

  abbrev pub told : ℕ → Option (Bytes × Bytes) → Link C → Link C
  told id none t = t
  told id (some (pack, json)) t = send (on_gmcp id pack json) t

  -- A reply of the client to `<VERSION>` or `<SUPPORT>`.
  unfoldable pub replied : ℕ → MxpReply → Link C → Link C
  unfolding publish_capabilities apply
  replied id reply t =
      let applied = record t {
        conn = record t.conn { capabilities = apply reply t.conn.capabilities };
      } in
      publish id (
        if t.mxp_announced
        then applied
        else send (on_mxp_ready id) (record applied { mxp_announced = true }))

  abbrev pub typed : ℕ → Option Text → Link C → Link C × Bool
  typed id none t = (t, false)
  typed id (some line) t = (send (on_input id line) t, true)

  -- One line, and whether the task has lived through it.
  unfoldable pub on_line : ℕ → Text → Link C → Link C × Bool
  unfolding replied parse_reply strip_line_modes trim_end
  on_line id drained t =
      let line = trim_end drained in
      let plainly = typed id (strip_line_modes line) t in
      if t.conn.mxp.enabled
      then (elim (parse_reply line) [
        | none ↦ (t, false)
        | some none ↦ plainly
        | some (some reply) ↦ (replied id reply t, true)
      ])
      else plainly

  unfoldable pub on_lines : ℕ → List Text → Link C → Link C × Bool
  unfolding on_line
  on_lines id [] t = (t, true)
  on_lines id (l ∷ ls) t =
      let (next, lives) = on_line id l t in
      let rest = on_lines id ls next in if lives then rest else (next, false)

  -- The `version` of the package, and serde_json's `from_str` with its `null`.
  module _ (version : Bytes) (from_str : Bytes → Option Bytes) (null : Bytes) (id : ℕ) where
    unfoldable pub on_event : TelnetEvent → Link C → Link C
    unfolding on_negotiate handle_subnegotiation publish_capabilities decode_line
    on_event (text bytes) t = record t { line_buf = t.line_buf ++ decode_line bytes }
    on_event (negotiate verb option) t =
        publish id (changed (on_negotiate version verb option t.conn) t)
    on_event (subnegotiation option payload) t =
        let (caps, message) =
          handle_subnegotiation from_str null option payload t.conn.capabilities in
        publish id (told id message (record t { conn = record t.conn { capabilities = caps } }))
    on_event (command _) t = t

    abbrev pub heard : Option TelnetEvent → Link C → Link C
    unfolding on_event
    heard none t = t
    heard (some e) t = on_event e t

    unfoldable pub feed_all : Bytes → Link C → Link C
    unfolding feed_in on_event
    feed_all [] t = t
    feed_all (b ∷ bs) t =
        let (p, e) = feed t.parser b in feed_all bs (heard e (record t { parser = p }))

    -- `parser.flush()`, whose event is a text.
    abbrev pub flushed : Link C → Link C
    unfolding flush_data on_event
    flushed t = let (p, e) = flush t.parser in heard e (record t { parser = p })

    unfoldable pub on_read : Bytes → Link C → Link C × Standing
    unfolding feed_all flush_data on_event cut_lines on_lines
    on_read bytes t =
        let fed = flushed (feed_all bytes t) in
        let (lines, rest) = cut_lines fed.line_buf in
        let (done, lives) = on_lines id lines (record fed { line_buf = rest }) in
        (done, if lives then goes_on else panics)

    unfoldable pub on_output : SessionOutput → Link C → Link C × Standing
    unfolding send_game_text send_game_prompt start_echo stop_echo to_mxp to_text encode_text
        encode_gmcp
    on_output (SessionOutput.text s) t = write_or_panic (send_game_text t.conn s) t
    on_output (SessionOutput.raw bytes) t = write_or_panic (send_game_prompt t.conn bytes) t
    on_output (SessionOutput.rich line) t =
        let rendered = if t.conn.mxp.enabled then to_mxp line else some (to_text line) in
        elim rendered [ none ↦ (t, panics) | some s ↦ (write (encode_text s) t, goes_on) ]
    on_output (SessionOutput.gmcp pack json) t = (write (encode_gmcp pack (some json)) t, goes_on)
    on_output SessionOutput.start_echo t = (changed (start_echo t.conn) t, goes_on)
    on_output SessionOutput.stop_echo t = (changed (stop_echo t.conn) t, goes_on)
    on_output SessionOutput.disconnect_out t = (t, breaks)

    unfoldable pub step : Event → Link C → Link C × Standing
    unfolding on_read on_output
    step (read []) t = (t, breaks)
    step (read (b ∷ bs)) t = on_read (b ∷ bs) t
    step read_failed t = (t, breaks)
    step (output out) t = on_output out t
    step output_closed t = (t, breaks)

    unfoldable pub run : List Event → Link C → Link C × Standing
    unfolding step
    run [] t = (t, goes_on)
    run (e ∷ es) t =
        let (next, standing) = step e t in
        let rest = run es next in
        elim standing [ goes_on ↦ rest | breaks ↦ (next, breaks) | panics ↦ (next, panics) ]

    unfoldable pub finish : ℕ → Link C → Link C
    finish address t = record t {
      handler = (Handler.disconnect id t.handler).0;
      commands = t.commands ++ on_disconnect id ∷ [];
      auth = elim t.auth [ none ↦ none | some w ↦ some (forget (some address) w) ];
    }

    -- What is behind the loop: nothing, if it goes on or has panicked.
    unfoldable pub ended : ℕ → Link C × Standing → Link C × Standing
    unfolding finish
    ended address (t, goes_on) = (t, goes_on)
    ended address (t, breaks) = (finish address t, breaks)
    ended address (t, panics) = (t, panics)

    unfoldable pub start : Link C → Link C
    unfolding send_initial_negotiations Parser.new
    start t =
        let connected = send (on_connect id) (changed (send_initial_negotiations t.conn) t) in
        record connected { parser = Parser.new; line_buf = []; mxp_announced = false }

    -- The whole of it, and where the task stands behind the events.
    unfoldable pub serve : ℕ → Session C → List Event → Link C → Link C × Standing
    unfolding start run ended encode_text
    serve address session events t =
        let (handler, connected) = Handler.connect session t.handler in
        elim connected [
          | Handler.Result.err _ ↦ (
            write (encode_text (ascii "\r\nServer is full. Try again later.\r\n"))
                (record t { handler = handler }),
            breaks,
          )
          | Handler.Result.ok _ ↦
              ended address (run events (start (record t { handler = handler })))
        ]
