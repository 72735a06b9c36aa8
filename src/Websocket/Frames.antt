-- ===== src/Websocket/Frames.antt =====
-- src/core/network/websocket/protocol.rs: what a client is sent for an output of its session. A text is
-- the list of its bytes, those of a rich line too; a JSON value is its bytes.
pub mod LineEnds
use oxigeon.Base.{
  ℕ, Bool, true, false, ◌&&◌, ◌||◌, List, [], ◌∷◌, Option, none, some, ◌==◌, if◌then◌else◌, Bytes,
  map,
}
use oxigeon.Base.Utf8.{from_utf8_lossy}
use oxigeon.Telnet.Constants.{cr, lf}
use oxigeon.Render.{RichLine, to_text}
use oxigeon.Session.{SessionOutput}
use oxigeon.Websocket.Ansi.{Span, strip_ansi, to_spans}

-- One line end at the end of the text.
unfoldable pub strip_terminator : Bytes → Bytes
strip_terminator [] = []
strip_terminator (c ∷ []) = if (c == lf) || (c == cr) then [] else c ∷ []
strip_terminator (c ∷ d ∷ []) =
    let rest = strip_terminator (d ∷ []) in if (c == cr) && (d == lf) then [] else c ∷ rest
strip_terminator (c ∷ d ∷ e ∷ es) = c ∷ strip_terminator (d ∷ e ∷ es)

-- `replace("\r\n", "\n")`
unfoldable pub replace_crlf : Bytes → Bytes
replace_crlf [] = []
replace_crlf (c ∷ []) = c ∷ []
replace_crlf (c ∷ d ∷ ds) =
    let both = replace_crlf ds in
    let one = replace_crlf (d ∷ ds) in if (c == cr) && (d == lf) then lf ∷ both else c ∷ one

-- `replace('\r', "\n")`
abbrev pub cr_to_lf : ℕ → ℕ
cr_to_lf c = if c == cr then lf else c

unfoldable pub normalize : Bytes → Bytes
unfolding strip_terminator replace_crlf
normalize s = map cr_to_lf (replace_crlf (strip_terminator s))

pub data AnsiMode : Type 0 where
  raw spans stripped : AnsiMode

-- The `text` and the `spans` of a frame.
unfoldable pub render : AnsiMode → Bytes → Option Bytes × Option (List Span)
unfolding strip_ansi to_spans
render raw s = (some s, none)
render stripped s = (some (strip_ansi s), none)
render spans s = (none, some (to_spans s))

pub data ServerFrame : Type 0 where
  text prompt : Option Bytes → Option (List Span) → ServerFrame
  gmcp : Bytes → Bytes → ServerFrame
  echo : Bool → ServerFrame
  bye : Option Bytes → ServerFrame
  error : Bytes → ServerFrame
  pong : ServerFrame

abbrev pub text_frame : AnsiMode → Bytes → ServerFrame
unfolding render
text_frame ansi s = let (t, ss) = render ansi s in text t ss

abbrev pub prompt_frame : AnsiMode → Bytes → ServerFrame
unfolding render
prompt_frame ansi s = let (t, ss) = render ansi s in prompt t ss

unfoldable pub from_output : SessionOutput → AnsiMode → ServerFrame
unfolding render normalize to_text from_utf8_lossy
from_output (SessionOutput.text t) ansi = text_frame ansi (normalize t)
from_output (SessionOutput.raw bytes) ansi = prompt_frame ansi (from_utf8_lossy bytes)
from_output (SessionOutput.rich line) ansi =
    let rendered = to_text line in
    if line.newline then text_frame ansi (normalize rendered) else prompt_frame ansi rendered
from_output (SessionOutput.gmcp pack json) ansi = gmcp pack json
from_output SessionOutput.start_echo ansi = echo true
from_output SessionOutput.stop_echo ansi = echo false
from_output SessionOutput.disconnect_out ansi = bye none

unfoldable pub plain : Bytes → ServerFrame
plain t = text (some t) none
