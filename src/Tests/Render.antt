-- ===== src/Tests/Render.antt =====
-- Tests and witnesses for src/core/render/mod.rs.
use oxigeon.Base.{true, [], ◌∷◌, ◌++◌, none, some, ◌≡◌, refl}
use oxigeon.Base.Utf8.{ascii}
use oxigeon.Telnet.Constants.{lf}
use oxigeon.Render
use oxigeon.Render.{Action, Node, Nodes, none_left, node, text, group, break, RichLine, to_text}

abbrev buys : Action
buys = record {
  send = ascii "buy <1>" ∷ [];
  hint = [];
  href = none;
  prompt = true;
  expire_name = none;
  var = some (ascii "item");
}

abbrev offer : RichLine
offer = Render.new (
    node (text (ascii "a <" ++ lf ∷ ascii "new "))
      (node (group buys (node (text (ascii "loaf")) none_left)) none_left))

offer_text : to_text offer ≡ ascii "a <" ++ lf ∷ (ascii "new loaf" ++ lf ∷ [])
unfolding to_text Render.new
offer_text = refl
