-- ===== src/Documents.antt =====
-- src/domain/models/document.rs: the names of fields that game code may ask for. A `&str` is the list of
-- its bytes. The text of an error is left out but for what it says is wrong.
pub mod Literal
pub mod Query
use oxigeon.Base.{
  ℕ, suc, ◌+◌, Bool, true, false, not, ◌&&◌, ◌||◌, List, [], ◌∷◌, ◌++◌, ltb, leb, ◌==◌, within,
  if◌then◌else◌, Bytes, length, all_of,
}
use oxigeon.Base.Utf8.{ascii}
use oxigeon.Websocket.Ansi.{split}

pub data Why : Type 0 where
  bad_length empty_segment no_field_name long_segment bad_character too_many_segments unclosed
        not_a_number :
      Why

-- The path, an error, or a panic: a slice that begins behind its end, or inside a character.
pub data Parsed : Type 0 where
  ok : Bytes → Parsed
  bad : Why → Parsed
  panic : Parsed

abbrev pub is_alphabetic : ℕ → Bool
is_alphabetic c = within b'A' b'Z' c || within b'a' b'z' c

abbrev pub is_name_char : ℕ → Bool
is_name_char c = is_alphabetic c || (within b'0' b'9' c || (c == b'_'))

abbrev pub is_name : Bytes → Bool
is_name [] = false
is_name (c ∷ cs) = (is_alphabetic c || (c == b'_')) && all_of is_name_char cs

-- The part up to its first bracket, and from it on.
unfoldable pub cut_bracket : Bytes → Bytes × Bytes
cut_bracket [] = ([], [])
cut_bracket (c ∷ cs) =
    let (name, rest) = cut_bracket cs in if c == b'[' then ([], c ∷ cs) else (c ∷ name, rest)

abbrev has_close : Bytes → Bool
has_close [] = false
has_close (c ∷ cs) = (c == b']') || has_close cs

abbrev pub is_digit : ℕ → Bool
is_digit = within b'0' b'9'

abbrev pub is_index : Bytes → Bool
is_index [] = false
is_index (c ∷ cs) = leb (length (c ∷ cs)) 9 && all_of is_digit (c ∷ cs)

abbrev pub prepend : Bytes → Parsed → Parsed
prepend s (ok t) = ok (s ++ t)
prepend s (bad why) = bad why
prepend s panic = panic

-- The loop over the subscripts: at its head, and behind the first character of `rest`, which it takes
-- for the bracket, with the index that was read so far.
unfoldable mutual
  pub subscripts : Bytes → Parsed
  subscripts [] = ok []
  subscripts (c ∷ cs) =
      let inside = index_from [] cs in
      if c == b']'
      then panic
      else if leb 128 c
      then (if has_close cs then panic else bad unclosed)
      else inside

  pub index_from : Bytes → Bytes → Parsed
  index_from held [] = bad unclosed
  index_from held (c ∷ cs) =
      let rest = subscripts cs in
      let more = index_from (held ++ c ∷ []) cs in
      if c == b']'
      then (if is_index held then prepend (b'[' ∷ (held ++ b']' ∷ [])) rest else bad not_a_number)
      else more

-- A name with what is behind it, if there may be so many segments with it.
unfoldable pub named : ℕ → Bytes → Bytes → Parsed
unfolding subscripts
named count name rest =
    if length name == 0
    then bad no_field_name
    else if ltb 64 (length name)
    then bad long_segment
    else if not (is_name name)
    then bad bad_character
    else if ltb 8 count
    then bad too_many_segments
    else prepend (b'.' ∷ name) (subscripts rest)

unfoldable pub segment : ℕ → Bytes → Parsed
unfolding cut_bracket named
segment count [] = bad empty_segment
segment count (c ∷ cs) = let (name, rest) = cut_bracket (c ∷ cs) in named count name rest

-- What is rendered of one segment, and what is rendered of those behind it.
abbrev pub and_then : Parsed → Parsed → Parsed
and_then (ok s) rest = prepend s rest
and_then (bad why) rest = bad why
and_then panic rest = panic

unfoldable pub segments : ℕ → List Bytes → Parsed
unfolding segment
segments count [] = ok (b'\'' ∷ [])
segments count (p ∷ ps) = and_then (segment (suc count) p) (segments (suc count) ps)

-- `JsonPath::parse`, to the text that `as_sql_literal` gives.
unfoldable pub parse : Bytes → Parsed
unfolding segments split
parse key =
    if (length key == 0) || ltb 256 (length key)
    then bad bad_length
    else prepend (ascii "'$") (segments 0 (split b'.' key))
