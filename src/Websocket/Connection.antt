-- ===== src/Websocket/Connection.antt =====
-- src/core/network/websocket/connection.rs: one client, from its handshake to the end.
--
-- The task is a machine that events befall, in the order in which `select!` takes them. Where an event
-- has the task write, it says whether the write succeeds. `from_str` is serde_json's, with the fields
-- that `ClientFrame` leaves out filled in; the text of its error, and that of the limit, come from
-- outside too.
pub mod Commands
pub mod Published
pub mod Silent
use oxigeon.Base.{
  ℕ, suc, ◌+◌, ◌%◌, ◌^◌, Bool, true, false, not, ◌&&◌, ◌||◌, List, [], ◌∷◌, ◌++◌, Option, none,
  some, ltb, leb, ◌==◌, if◌then◌else◌, Bytes, length, map,
}
use oxigeon.Base.Decimal.{parse}
use oxigeon.Base.Utf8.{ascii}
use oxigeon.Auth.{AuthWorker, forget}
use oxigeon.Telnet.Constants.{cr, lf}
use oxigeon.Telnet.Capabilities.{ClientCapabilities, for_websocket}
use oxigeon.Telnet.Mxp.State.{equals, member}
use oxigeon.Session.{SessionOutput, disconnect_out, Session}
use oxigeon.Session.Commands.{LuaCommand, on_connect, on_disconnect, on_input, on_gmcp}
use oxigeon.Session.Handler
use oxigeon.Session.Handler.{SessionHandler, publish_capabilities}
use oxigeon.Websocket.Ansi.{split, u16_limit}
use oxigeon.Websocket.Frames.{
  AnsiMode, raw, spans, stripped, ServerFrame, gmcp, error, pong, from_output, plain,
}

pub data ClientFrame : Type 0 where
  input : Bytes → ClientFrame
  hello : Option ℕ → Option ℕ → Bool → Option Bytes → AnsiMode → ClientFrame
  gmcp_from : Bytes → Bytes → ClientFrame
  ping : ClientFrame

-- The limits of the connection, and its session.
pub record Config : Type 0 where
  pub session_id : ℕ
  pub address : ℕ
  pub ping_interval_secs : ℕ
  pub missed_pongs : ℕ
  pub input_buffer_bytes : ℕ
  pub allowed_origins : List Bytes

-- The variables of the task, what it shares, what it has sent, and what it has tried to write.
pub record Task (C : Type 0) : Type 0 where
  pub caps : ClientCapabilities
  pub ansi : AnsiMode
  pub missed : ℕ
  pub handler : SessionHandler C
  pub auth : Option AuthWorker
  pub commands : List LuaCommand
  pub frames : List ServerFrame

-- An `Origin` that no browser sent is allowed; one that is not text is empty.
unfoldable pub check_origin : List Bytes → Option Bytes → Bool
check_origin [] origin = true
check_origin (a ∷ allowed) none = true
check_origin (a ∷ allowed) (some origin) = member origin (a ∷ allowed)

abbrev ansi_named : Bytes → AnsiMode → AnsiMode
ansi_named v ansi =
    if equals v (ascii "spans")
    then spans
    else if equals v (ascii "none")
    then stripped
    else if equals v (ascii "raw")
    then raw
    else ansi

-- `if let Ok(w) = v.parse()`
abbrev parsed_or : Option ℕ → Bytes → Option ℕ
unfolding parse
parsed_or old v = elim (parse u16_limit v) [ none ↦ old | some w ↦ some w ]

abbrev pub Wishes : Type 0
Wishes = ClientCapabilities × AnsiMode

unfoldable pub apply_pair : Bytes → Bytes → Wishes → Wishes
unfolding parse
apply_pair k v (caps, ansi) =
    if equals k (ascii "ansi")
    then (caps, ansi_named v ansi)
    else if equals k (ascii "width")
    then (record caps { window_width = parsed_or caps.window_width v }, ansi)
    else if equals k (ascii "height")
    then (record caps { window_height = parsed_or caps.window_height v }, ansi)
    else if equals k (ascii "gmcp")
    then (
      record caps { gmcp_supported = not (equals v (ascii "false")) && not (equals v (ascii "0")) },
      ansi,
    )
    else if equals k (ascii "terminal")
    then (record caps { terminal_type = some v }, ansi)
    else (caps, ansi)

-- `split_once('=')`
unfoldable pub split_equals : Bytes → Option (Bytes × Bytes)
split_equals [] = none
split_equals (c ∷ cs) =
    let rest = split_equals cs in
    if c == b'=' then some ([], cs) else elim rest [ none ↦ none | some (k, v) ↦ some (c ∷ k, v) ]

unfoldable pub apply_pairs : List Bytes → Wishes → Wishes
unfolding apply_pair split_equals
apply_pairs [] w = w
apply_pairs (p ∷ ps) w =
    apply_pairs ps (elim (split_equals p) [ none ↦ w | some (k, v) ↦ apply_pair k v w ])

unfoldable pub apply_query : Bytes → Wishes → Wishes
unfolding apply_pairs split
apply_query query = apply_pairs (split b'&' query)

-- `strip_suffix('\r')`
unfoldable pub strip_cr : Bytes → Bytes
strip_cr [] = []
strip_cr (c ∷ []) = if c == cr then [] else c ∷ []
strip_cr (c ∷ d ∷ ds) = c ∷ strip_cr (d ∷ ds)

unfoldable pub input_lines : Bytes → List Bytes
unfolding split strip_cr
input_lines text = map strip_cr (split lf text)

abbrev or_kept {ℓ} : {A : Type ℓ} → Option A → Option A → Option A
or_kept none old = old
or_kept (some a) old = some a

-- What the client said of itself.
unfoldable pub told :
    Option ℕ → Option ℕ → Bool → Option Bytes → ClientCapabilities → ClientCapabilities
told width height has_gmcp terminal caps = record caps {
  window_width = or_kept width caps.window_width;
  window_height = or_kept height caps.window_height;
  terminal_type = or_kept terminal caps.terminal_type;
  gmcp_supported = has_gmcp;
}

module _ {C : Type 0} where
  abbrev pub write : ServerFrame → Task C → Task C
  write frame t = record t { frames = t.frames ++ frame ∷ [] }

  abbrev pub send : List LuaCommand → Task C → Task C
  send commands t = record t { commands = t.commands ++ commands }

  -- `publish_capabilities`, of the task's own.
  abbrev pub publish : Config → Task C → Task C
  unfolding publish_capabilities
  publish cfg t = record t { handler = publish_capabilities cfg.session_id t.caps t.handler }

  unfoldable pub handle_frame : Config → Bytes → ClientFrame → Bool → Task C → Task C × Bool
  unfolding publish_capabilities input_lines told
  handle_frame cfg too_long (input text) ok t =
      if ltb cfg.input_buffer_bytes (length text)
      then (write (error too_long) t, ok)
      else (send (map (on_input cfg.session_id) (input_lines text)) t, true)
  handle_frame cfg too_long (hello width height has_gmcp terminal mode) ok t = (
    publish cfg (record t { ansi = mode; caps = told width height has_gmcp terminal t.caps }),
    true,
  )
  handle_frame cfg too_long (gmcp_from pack json) ok t =
      let t' =
        if t.caps.gmcp_supported
        then t
        else publish cfg (record t { caps = record t.caps { gmcp_supported = true } }) in
      (send (on_gmcp cfg.session_id pack json ∷ []) t', true)
  handle_frame cfg too_long ping ok t = (write pong t, ok)

  -- The task and whether the connection survives.
  unfoldable pub handle_client_text :
      (Bytes → Option ClientFrame) → Config → Bytes → Bytes → Bytes → Bool → Task C → Task C × Bool
  unfolding handle_frame
  handle_client_text from_str cfg unreadable too_long message ok t = elim (from_str message) [
    | none ↦ (write (error unreadable) t, ok)
    | some frame ↦ handle_frame cfg too_long frame ok t
  ]

pub data Event : Type 0 where
  text_message : Bytes → Bool → Event
  binary_message : Bool → Event
  pong_message other_message closed : Event
  output : SessionOutput → Bool → Event
  output_closed : Event
  tick : Bool → Event

abbrev pub is_goodbye : SessionOutput → Bool
is_goodbye SessionOutput.disconnect_out = true
is_goodbye _ = false

module _ {C : Type 0} (from_str : Bytes → Option ClientFrame) (cfg : Config)
    (unreadable too_long not_text core_hello : Bytes) where
  -- One turn of the loop, and whether it goes on. A tick is only heard with an interval.
  unfoldable pub step : Event → Task C → Task C × Bool
  unfolding handle_client_text from_output
  step (text_message message ok) t =
      handle_client_text from_str cfg unreadable too_long message ok t
  step (binary_message ok) t = (write (error not_text) t, ok)
  step pong_message t = (record t { missed = 0 }, true)
  step other_message t = (t, true)
  step closed t = (t, false)
  step (output out ok) t = (write (from_output out t.ansi) t, ok && not (is_goodbye out))
  step output_closed t = (t, false)
  step (tick ok) t =
      if cfg.ping_interval_secs == 0
      then (t, true)
      else if leb cfg.missed_pongs t.missed
      then (t, false)
      else (if ok then record t { missed = (t.missed + 1) % 2 ^ 32 } else t, ok)

  -- The loop over events, and whether it is still on behind them.
  unfoldable pub run : List Event → Task C → Task C × Bool
  unfolding step
  run [] t = (t, true)
  run (e ∷ es) t =
      let (next, goes_on) = step e t in
      let rest = run es next in if goes_on then rest else (next, false)

  -- A session was registered: from the first capabilities to the first command.
  unfoldable pub start : Bytes → Task C → Task C
  unfolding apply_query publish_capabilities
  start query t =
      let first = publish cfg (record t { caps = for_websocket; ansi = raw; missed = 0 }) in
      let (caps, ansi) = apply_query query (first.caps, first.ansi) in
      let wished = record first { caps = caps; ansi = ansi } in
      let told_again = if length query == 0 then wished else publish cfg wished in
      send (on_connect cfg.session_id ∷ [])
        (write (gmcp (ascii "Core.Hello") core_hello) told_again)

  unfoldable pub finish : Task C → Task C
  finish t = record t {
    handler = (Handler.disconnect cfg.session_id t.handler).0;
    commands = t.commands ++ on_disconnect cfg.session_id ∷ [];
    auth = elim t.auth [ none ↦ none | some w ↦ some (forget (some cfg.address) w) ];
  }

  -- The whole of it, behind a handshake: whether the task is over is the second part.
  unfoldable pub serve : Bytes → Session C → List Event → Task C → Task C × Bool
  unfolding start run finish
  serve query session events t =
      let (handler, connected) = Handler.connect session t.handler in
      elim connected [
        | Handler.Result.err _ ↦ (
          write (plain (ascii "Server is full. Try again later.")) (record t { handler = handler }),
          true,
        )
        | Handler.Result.ok _ ↦
            let (last, goes_on) = run events (start query (record t { handler = handler })) in
            if goes_on then (last, false) else (finish last, true)
      ]
