-- ===== src/Tests/Websocket.antt =====
-- Tests and witnesses for src/core/network/websocket, over channels that hold two outputs.
use oxigeon.Base.{
  ℕ, true, List, [], ◌∷◌, ◌++◌, Option, none, some, ◌≡◌, refl, arith, Bytes, All, if◌then◌else◌,
}
use oxigeon.Base.Utf8.{ascii}
use oxigeon.Telnet.Capabilities.{for_websocket}
use oxigeon.Telnet.Constants.{cr, esc, lf}
use oxigeon.Session
use oxigeon.Session.{Session, text}
use oxigeon.Session.Commands.{LuaCommand, on_connect, on_disconnect, on_input}
use oxigeon.Session.Handler.{full_multi, connect}
use oxigeon.Websocket.Ansi.{Span, plain, to_spans, strip_ansi}
use oxigeon.Websocket.Ansi.Strip.{span_texts, HasText, to_spans-strip_ansi}
use oxigeon.Websocket.Ansi.Paint.{paint, to_spans-paint}
use oxigeon.Websocket.Frames.{raw}
use oxigeon.Websocket.Connection.{
  ClientFrame, input, Config, Task, Event, text_message, closed, output, tick, serve,
}
use oxigeon.Websocket.Connection.Commands.{AllHeard, serve-commands}
use oxigeon.Websocket.Connection.Silent.{serve-silent}

abbrev red : Bytes
red = esc ∷ ascii "[1;31m"

-- A sequence that moves the cursor is dropped, and one that the text breaks off.
stripped :
    strip_ansi (red ++ (ascii "hi" ++ (esc ∷ ascii "[2J!" ++ esc ∷ ascii "[3"))) ≡ ascii "hi!"
unfolding strip_ansi
stripped = refl

abbrev bright : Span
bright = record { text = ascii "hi"; style = record plain { fg = some 200; bold = true } }

to_spans-paint_example : to_spans (paint (bright ∷ [])) ≡ bright ∷ []
to_spans-paint_example =
    to_spans-paint (bright ∷ []) (((λ e. cc), (ground arith), (ground arith)), tt)

-- Every message is a line of input.
abbrev from_str : Bytes → Option ClientFrame
from_str s = some (input s)

abbrev cfg : Config
cfg = record {
  session_id = 4;
  address = 9;
  ping_interval_secs = 30;
  missed_pongs = 2;
  input_buffer_bytes = 8;
  allowed_origins = [];
}

abbrev session : Session ℕ
session = Session.new 4 0

abbrev fresh : Task ℕ
fresh = record {
  caps = for_websocket;
  ansi = raw;
  missed = 0;
  handler = record { sessions = []; multisession_mode = full_multi; max_connections = 1 };
  auth = none;
  commands = [];
  frames = [];
}

abbrev paste : List Event
paste = text_message (ascii "n" ++ cr ∷ lf ∷ ascii "e") true ∷ closed ∷ []

abbrev served : List Event → Task ℕ
served es = (serve from_str cfg [] [] [] [] (ascii "ansi=none") session es fresh).0

two_lines :
    (served paste).commands
    ≡ on_connect 4 ∷ on_input 4 (ascii "n") ∷ on_input 4 (ascii "e") ∷ on_disconnect 4 ∷ []
unfolding serve Session.new connect
two_lines = refl

abbrev silence : List Event
silence = tick true ∷ output (text (ascii "hi")) true ∷ tick true ∷ tick true ∷ []

serve-silent_example : (serve from_str cfg [] [] [] [] [] session silence fresh).1 ≡ true
serve-silent_example =
    serve-silent cfg from_str [] [] [] [] (omega arith) (omega arith) [] session silence fresh tt
      (omega arith)

serve-commands_example :
    let r = serve from_str cfg [] [] [] [] [] session paste fresh in
    (heard : List LuaCommand) × (r.0.commands
      ≡ ([] ++ on_connect 4 ∷ []) ++ (heard ++ (if r.1 then on_disconnect 4 ∷ [] else [])))
    × AllHeard cfg heard
serve-commands_example =
    serve-commands cfg from_str [] [] [] [] [] session paste fresh (omega arith)

to_spans-strip_ansi_example :
    (span_texts (to_spans red) ≡ strip_ansi red) × All HasText (to_spans red)
to_spans-strip_ansi_example = to_spans-strip_ansi red
