-- ===== src/Tests/Documents.antt =====
-- Tests and witnesses for src/domain/models/document.rs.
use oxigeon.Base.{true, none, [], ◌∷◌, ◌++◌, ◌≡◌, refl, Bytes}
use oxigeon.Base.Utf8.{ascii}
use oxigeon.Documents.{ok, panic, parse}
use oxigeon.Documents.Literal.{IsInert, parse-Closed}
use oxigeon.Documents.Query.{
  gt, not_in, exists, int, bool, list, present, no_more, item, path, Query, build,
}
use oxigeon.Documents.Query.Meaning.{fill, meaning}
use oxigeon.Documents.Query.Holes.{build-meaning}

parsed : parse (ascii "history[0].actor") ≡ ok (ascii "'$.history[0].actor'")
unfolding parse
parsed = refl

-- What is behind a subscript is taken for a bracket.
misread : parse (ascii "history[0]x5]") ≡ ok (ascii "'$.history[0][5]'")
unfolding parse
misread = refl

panicked : parse (ascii "history[0]]") ≡ panic
unfolding parse
panicked = refl

parse-Closed_example :
    (body : Bytes) × (ascii "'$.a[1]'" ≡ ascii "'$" ++ (body ++ b'\'' ∷ [])) × IsInert body
unfolding parse
parse-Closed_example = parse-Closed (ascii "a[1]") (ascii "'$.a[1]'") refl

abbrev field : Bytes
field = ascii "'$.hp'"

abbrev wounded : Query
wounded = record {
  collection = ascii "heroes";
  filter =
      record { path = field; op = gt; value = int 7 }
      ∷ record { path = field; op = not_in; value = list (item (int 8) (item (bool true) no_more)) }
      ∷ record { path = field; op = exists; value = present true }
      ∷ [];
  sort = path field;
  descending = true;
  limit = none;
  offset = 0;
}

build-meaning_example : fill (build wounded).sql (build wounded).binds ≡ meaning wounded
unfolding parse
build-meaning_example =
    build-meaning wounded
      (
        ((ascii "hp", refl), tt),
        (((ascii "hp", refl), (tt, (tt, tt))), (((ascii "hp", refl), tt), tt)),
      )
      (ascii "hp", refl)
