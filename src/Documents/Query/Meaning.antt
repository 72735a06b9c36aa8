-- ===== src/Documents/Query/Meaning.antt =====
-- src/domain/models/document.rs: a query with each value in its place.
use oxigeon.Base.{ℕ, Bool, true, false, List, [], ◌∷◌, ◌++◌, map, ◌==◌, if◌then◌else◌, Bytes}
use oxigeon.Base.Utf8.{ascii}
use oxigeon.Documents.Query.{
  Op, eq, ne, gt, ge, lt, le, one_of, not_in, like, exists, contains, FilterValue, text, int, real,
  bool, list, present, FilterValues, no_more, item, Bind, bound_text, bound_bigint, bound_double,
  bound_integer, Condition, Query, Sort, column, path,
}

-- What the database is asked: characters of the text, and values.
pub data Piece : Type 0 where
  plain : ℕ → Piece
  given : Bind → Piece
  missing : Piece

-- Each hole takes the next value, and what is left of the values stands at the end.
unfoldable pub fill : Bytes → List Bind → List Piece
fill [] bs = map given bs
fill (c ∷ cs) [] = (if c == b'?' then missing else plain c) ∷ fill cs []
fill (c ∷ cs) (b ∷ bs) = if c == b'?' then given b ∷ fill cs bs else plain c ∷ fill cs (b ∷ bs)

abbrev pub spell : Bytes → List Piece
spell = map plain

-- A text, a number or a truth value, as it is bound.
abbrev pub bound_of : FilterValue → Bind
bound_of (text s) = bound_text s
bound_of (int i) = bound_bigint i
bound_of (real f) = bound_double f
bound_of (bool true) = bound_integer 1
bound_of (bool false) = bound_integer 0
bound_of _ = bound_text []

abbrev pub listed : FilterValues → List Piece
listed no_more = []
listed (item v no_more) = given (bound_of v) ∷ []
listed (item v (item w ws)) = given (bound_of v) ∷ (plain (b',') ∷ listed (item w ws))

abbrev pub field : Bytes → List Piece
field p = spell (ascii "json_extract(data, ") ++ (spell p ++ spell (ascii ")"))

abbrev pub sign : Op → Bytes
sign gt = ascii ">"
sign ge = ascii ">="
sign lt = ascii "<"
sign le = ascii "<="
sign like = ascii "LIKE"
sign eq = ascii "="
sign _ = []

abbrev pub compared : Bytes → Op → Bind → List Piece
compared p op b =
    spell (ascii " AND ")
    ++ (field p ++ (spell (ascii " ") ++ (spell (sign op) ++ (plain (b' ') ∷ (given b ∷ [])))))

-- A field that is not there meets a negated test.
abbrev pub absent_or : Bytes → List Piece → List Piece
absent_or p test =
    spell (ascii " AND (") ++ (field p ++ (spell (ascii " IS NULL OR ") ++ (field p ++ test)))

-- What a condition asks, with its own values.
abbrev pub asked : Bytes → Op → FilterValue → List Piece
asked p exists (present true) = spell (ascii " AND ") ++ (field p ++ spell (ascii " IS NOT NULL"))
asked p exists (present false) = spell (ascii " AND ") ++ (field p ++ spell (ascii " IS NULL"))
asked p one_of (list vs) =
    spell (ascii " AND ")
    ++ (field p ++ (spell (ascii " IN (") ++ (listed vs ++ spell (ascii ")"))))
asked p not_in (list vs) =
    absent_or p (spell (ascii " NOT IN (") ++ (listed vs ++ spell (ascii "))")))
asked p ne v = absent_or p (spell (ascii " <> ") ++ (given (bound_of v) ∷ spell (ascii ")")))
asked p contains v =
    spell (ascii " AND EXISTS (SELECT 1 FROM json_each(documents.data, ")
    ++ (spell p
        ++ (spell (ascii ") WHERE json_each.value = ") ++ (given (bound_of v) ∷ spell (ascii ")"))))
asked p op v = compared p op (bound_of v)

abbrev pub all_asked : List Condition → List Piece
all_asked [] = []
all_asked (c ∷ cs) = asked c.path c.op c.value ++ all_asked cs

abbrev pub sort_key : Sort → List Piece
sort_key (column col) = spell col
sort_key (path p) = field p

abbrev pub direction : Bool → List Piece
direction true = spell (ascii " DESC, id ASC")
direction false = spell (ascii " ASC, id ASC")

abbrev pub selection : Bytes → List Piece
selection collection =
    spell (
      ascii
        "SELECT collection, id, data, created_at, updated_at FROM documents WHERE collection = ")
    ++ given (bound_text collection) ∷ []

abbrev pub ordering : Query → List Piece
ordering query = spell (ascii " ORDER BY ") ++ (sort_key query.sort ++ direction query.descending)

-- The documents of the collection that meet each condition, in the order asked for.
abbrev pub meaning : Query → List Piece
meaning query = selection query.collection ++ (all_asked query.filter ++ ordering query)
