-- ===== src/Render.antt =====
-- src/core/render/mod.rs: a line of game text, rendered for a client with MXP or for any other. A text
-- is the list of the codes of its characters. What is pushed onto `out` is the result; `none` is the
-- panic of `escape`.
pub mod Client
pub mod Reads
pub mod Links
pub mod Agree
use oxigeon.Base.{
  ℕ, Bool, true, false, not, ◌&&◌, ◌||◌, List, [], ◌∷◌, ◌++◌, Option, none, some, ◌==◌,
  if◌then◌else◌,
}
use oxigeon.Base.Utf8.{ascii}
use oxigeon.Telnet.Constants.{lf}
use oxigeon.Telnet.Mxp.{Text, escape}
use oxigeon.Telnet.Mxp.State.{line_tag, mode_secure}

pub data LineMode : Type 0 where
  open_line secure locked : LineMode

unfoldable pub mode_code : LineMode → ℕ
mode_code open_line = 0
mode_code secure = mode_secure
mode_code locked = 2

-- The fields of a group but its children.
pub record Action : Type 0 where
  pub send : List Text
  pub hint : List Text
  pub href : Option Text
  pub prompt : Bool
  pub expire_name : Option Text
  pub var : Option Text

mutual
  pub data Node : Type 0 where
    text : Text → Node
    group : Action → Nodes → Node
    break : Node
    expire : Option Text → Node

  -- A `Vec<Node>`.
  pub data Nodes : Type 0 where
    none_left : Nodes
    node : Node → Nodes → Nodes

abbrev is_nil : List Text → Bool
is_nil [] = true
is_nil (_ ∷ _) = false

abbrev pub is_some : Option Text → Bool
is_some none = false
is_some (some _) = true

unfoldable pub is_actionable : Action → Bool
is_actionable a = not (is_nil a.send) || is_some a.href

pub record RichLine : Type 0 where
  pub nodes : Nodes
  pub mode : LineMode
  pub tag : Option ℕ
  pub newline : Bool

unfoldable pub new : Nodes → RichLine
new nodes = record { nodes = nodes; mode = secure; tag = none; newline = true }

-- One write behind another.
infixr 60 ◌&◌
abbrev pub ◌&◌ : Option Text → Option Text → Option Text
none & q = none
some s & none = none
some s & some t = some (s ++ t)

abbrev pub lit : Text → Option Text
lit = some

-- The parts between the newlines, each but the first behind a newline and the prefix.
unfoldable pub broken : Text → Text → Text
broken prefix [] = []
broken prefix (c ∷ cs) = (if c == lf then lf ∷ prefix else c ∷ []) ++ broken prefix cs

abbrev text_of : Text → Option Text → Option Text
text_of prefix none = none
text_of prefix (some escaped) = some (broken prefix escaped)

unfoldable pub join_bar : List Text → Text
join_bar [] = []
join_bar (s ∷ []) = s
join_bar (s ∷ t ∷ ts) = s ++ b'|' ∷ join_bar (t ∷ ts)

abbrev pub tag_name : Option Text → Text
tag_name none = ascii "SEND"
tag_name (some _) = ascii "A"

abbrev pub target : Action → Text
unfolding join_bar
target a = elim a.href [ none ↦ join_bar a.send | some url ↦ url ]

abbrev pub hints : List Text → Option Text
hints [] = some []
hints (h ∷ hs) = lit (ascii " hint=\"") & (escape (join_bar (h ∷ hs)) & lit (ascii "\""))

abbrev pub expiry : Option Text → Option Text
expiry none = some []
expiry (some name) = lit (ascii " expire=\"") & (escape name & lit (ascii "\""))

abbrev pub prompt_of : Action → Text
prompt_of a = if a.prompt && not (is_some a.href) then ascii " PROMPT" else []

-- The opening tag of a link, between its brackets.
unfoldable pub link_tag : Action → Option Text
unfolding join_bar
link_tag a =
    lit (tag_name a.href ++ ascii " href=\"")
    & (escape (target a)
        & (lit (ascii "\"") & (hints a.hint & (expiry a.expire_name & lit (prompt_of a)))))

unfoldable pub write_mxp_link : Action → Option Text → Option Text
unfolding link_tag is_actionable
write_mxp_link a children =
    if is_actionable a
    then (lit (ascii "<")
        & (link_tag a
            & (lit (ascii ">") & (children & lit (ascii "</" ++ (tag_name a.href ++ ascii ">"))))))
    else children

abbrev pub var_start : Option Text → Option Text
var_start none = some []
var_start (some name) = lit (ascii "<VAR ") & (escape name & lit (ascii ">"))

abbrev pub var_end : Option Text → Text
var_end none = []
var_end (some _) = ascii "</VAR>"

abbrev expire_tag : Option Text → Option Text
expire_tag none = some (ascii "<EXPIRE>")
expire_tag (some name) = lit (ascii "<EXPIRE ") & (escape name & lit (ascii ">"))

unfoldable mutual
  unfolding write_mxp_link broken

  pub write_mxp : Text → Node → Option Text
  write_mxp prefix (text t) = text_of prefix (escape t)
  write_mxp prefix break = some (ascii "<BR>")
  write_mxp prefix (expire name) = expire_tag name
  write_mxp prefix (group a children) =
      var_start a.var & (write_mxp_link a (write_each prefix children) & lit (var_end a.var))

  pub write_each : Text → Nodes → Option Text
  write_each prefix none_left = some []
  write_each prefix (node n ns) = write_mxp prefix n & write_each prefix ns

abbrev pub prefix_of : RichLine → Text
unfolding mode_code line_tag
prefix_of line = line_tag (elim line.tag [ none ↦ mode_code line.mode | some n ↦ n ])

abbrev pub end_of : RichLine → Text
end_of line = if line.newline then lf ∷ [] else []

unfoldable pub to_mxp : RichLine → Option Text
unfolding write_each mode_code
to_mxp line = lit (prefix_of line) & (write_each (prefix_of line) line.nodes & lit (end_of line))

unfoldable mutual
  pub write_text : Node → Text
  write_text (text t) = t
  write_text break = lf ∷ []
  write_text (expire _) = []
  write_text (group _ children) = text_each children

  pub text_each : Nodes → Text
  text_each none_left = []
  text_each (node n ns) = write_text n ++ text_each ns

unfoldable pub to_text : RichLine → Text
unfolding text_each
to_text line = text_each line.nodes ++ end_of line
