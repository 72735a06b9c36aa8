-- ===== src/Render/Client.antt =====
-- What a client makes of a line with MXP: an independent reading of the markup of src/core/render/mod.rs.
-- It has no part in the driver. A line is locked, which is how the driver has the client take lines
-- without a line tag, until the line tag 1 makes it secure; a newline locks the next one. Nothing is
-- obeyed but on a secure line, and the other characters of a locked line are shown as they are.
use oxigeon.Base.{ℕ, List, [], ◌∷◌, ◌++◌, ◌==◌, if◌then◌else◌}
use oxigeon.Base.Utf8.{ascii}
use oxigeon.Telnet.Constants.{esc, lf}
use oxigeon.Telnet.Mxp.{Text}
use oxigeon.Telnet.Mxp.State.{equals}

-- The characters that are shown, and the tags that are obeyed, each without its brackets.
pub record Seen : Type 0 where
  pub shown : Text
  pub tags : List Text

abbrev pub nothing : Seen
nothing = record { shown = []; tags = [] }

abbrev pub shows : Text → Seen
shows t = record { shown = t; tags = [] }

infixr 60 ◌⧺◌
abbrev pub ◌⧺◌ : Seen → Seen → Seen
p ⧺ q = record { shown = p.shown ++ q.shown; tags = p.tags ++ q.tags }

-- On a locked line; between two items of a secure one; within a tag, an entity or a line tag, with
-- what was read of it.
pub data Reading : Type 0 where
  locked outside : Reading
  in_tag in_entity in_mode : Text → Reading

abbrev character_of : Text → Text
character_of name =
    if equals name (ascii "lt")
    then b'<' ∷ []
    else if equals name (ascii "gt")
    then b'>' ∷ []
    else if equals name (ascii "amp")
    then b'&' ∷ []
    else if equals name (ascii "quot")
    then 34 ∷ []
    else []

-- A line break is a tag that is shown.
abbrev pub obeyed : Text → Seen
obeyed name = record { shown = if equals name (ascii "BR") then lf ∷ [] else []; tags = name ∷ [] }

unfoldable pub read : Reading → ℕ → Seen × Reading
read locked c = if c == esc then (nothing, in_mode []) else (shows (c ∷ []), locked)
read outside c =
    if c == b'<'
    then (nothing, in_tag [])
    else if c == b'&'
    then (nothing, in_entity [])
    else if c == esc
    then (nothing, in_mode [])
    else if c == lf
    then (shows (lf ∷ []), locked)
    else (shows (c ∷ []), outside)
read (in_tag name) c =
    if c == b'>'
    then (obeyed name, outside)
    else if c == lf
    then (shows (lf ∷ []), locked)
    else (nothing, in_tag (name ++ c ∷ []))
read (in_entity name) c =
    if c == b';'
    then (shows (character_of name), outside)
    else (nothing, in_entity (name ++ c ∷ []))
read (in_mode code) c =
    if c == b'z'
    then (nothing, if equals code (ascii "[1") then outside else locked)
    else (nothing, in_mode (code ++ c ∷ []))

unfoldable pub read_from : Reading → Text → Seen
unfolding read
read_from r [] = nothing
read_from r (c ∷ cs) = let (seen, next) = read r c in seen ⧺ read_from next cs

abbrev pub client : Text → Seen
client = read_from locked
