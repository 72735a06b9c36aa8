-- ===== src/Documents/Query.antt =====
-- src/domain/models/document.rs: the text of a query, and what is bound to its holes, in order. The text
-- of a query is the list of its bytes; what is bound is a text, an integer or a real.
pub mod Meaning
pub mod Fills
pub mod Holes
use oxigeon.Base.{
  ℕ, ◌+◌, Bool, true, false, List, [], ◌∷◌, ◌++◌, Option, none, some, ◌==◌, if◌then◌else◌, Bytes,
  length,
}
use oxigeon.Base.Utf8.{ascii}
use oxigeon.Telnet.Mxp.State.{equals}

pub data Op : Type 0 where
  eq ne gt ge lt le one_of not_in like exists contains : Op

abbrev is_one_of : Bytes → Bytes → Bytes → Bool
is_one_of s a b = if equals s a then true else equals s b

unfoldable pub parse_op : Bytes → Option Op
parse_op s =
    if is_one_of s (ascii "==") (ascii "eq")
    then some eq
    else if is_one_of s (ascii "~=") (ascii "ne")
    then some ne
    else if is_one_of s (ascii ">") (ascii "gt")
    then some gt
    else if is_one_of s (ascii ">=") (ascii "ge")
    then some ge
    else if is_one_of s (ascii "<") (ascii "lt")
    then some lt
    else if is_one_of s (ascii "<=") (ascii "le")
    then some le
    else if equals s (ascii "in")
    then some one_of
    else if equals s (ascii "nin")
    then some not_in
    else if equals s (ascii "like")
    then some like
    else if equals s (ascii "exists")
    then some exists
    else if equals s (ascii "contains")
    then some contains
    else none

mutual
  pub data FilterValue : Type 0 where
    text : Bytes → FilterValue
    int real : ℕ → FilterValue
    bool : Bool → FilterValue
    list : FilterValues → FilterValue
    present : Bool → FilterValue

  -- A `Vec<FilterValue>`.
  pub data FilterValues : Type 0 where
    no_more : FilterValues
    item : FilterValue → FilterValues → FilterValues

pub data Bind : Type 0 where
  bound_text : Bytes → Bind
  bound_bigint bound_double bound_integer : ℕ → Bind

-- The path is its literal.
pub record Condition : Type 0 where
  pub path : Bytes
  pub op : Op
  pub value : FilterValue

pub data Sort : Type 0 where
  column path : Bytes → Sort

-- An `i64` is its 64 bits.
pub record Query : Type 0 where
  pub collection : Bytes
  pub filter : List Condition
  pub sort : Sort
  pub descending : Bool
  pub limit : Option ℕ
  pub offset : ℕ

pub record Sql : Type 0 where
  pub sql : Bytes
  pub binds : List Bind

abbrev pub add : Bytes → Sql → Sql
add s q = record q { sql = q.sql ++ s }

abbrev pub bind : Bind → Sql → Sql
bind b q = record q { binds = q.binds ++ b ∷ [] }

unfoldable pub bind_value : FilterValue → Sql → Sql
bind_value (text s) q = bind (bound_text s) q
bind_value (int i) q = bind (bound_bigint i) q
bind_value (real f) q = bind (bound_double f) q
bind_value (bool b) q = bind (bound_integer (if b then 1 else 0)) q
bind_value (list _) q = q
bind_value (present _) q = q

unfoldable pub bind_each : FilterValues → Sql → Sql
unfolding bind_value
bind_each no_more q = q
bind_each (item v vs) q = bind_each vs (bind_value v q)

-- A question mark for each, with commas between them.
unfoldable pub marks : FilterValues → Bytes
marks no_more = []
marks (item v no_more) = ascii "?"
marks (item v (item w ws)) = ascii "?," ++ marks (item w ws)

abbrev pub extract : Bytes → Bytes
extract p = ascii "json_extract(data, " ++ (p ++ ascii ")")

unfoldable pub sql_op : Op → Bytes
sql_op gt = ascii ">"
sql_op ge = ascii ">="
sql_op lt = ascii "<"
sql_op le = ascii "<="
sql_op like = ascii "LIKE"
sql_op _ = ascii "="

abbrev pub compare_to : Bytes → Op → FilterValue → Sql → Sql
unfolding sql_op bind_value
compare_to p op v q =
    bind_value v (add (ascii " AND " ++ (extract p ++ (ascii " " ++ (sql_op op ++ ascii " ?")))) q)

abbrev pub presence : Bool → Bytes
presence want = if want then ascii " IS NOT NULL" else ascii " IS NULL"

abbrev pub none_or : Bytes → Bytes → Bytes
none_or p test = ascii " AND (" ++ (extract p ++ (ascii " IS NULL OR " ++ (extract p ++ test)))

unfoldable pub push_condition : Condition → Sql → Sql
unfolding bind_each marks sql_op bind_value
push_condition c q = elim c.op [
  | exists ↦ elim c.value [
    | present want ↦ add (ascii " AND " ++ (extract c.path ++ presence want)) q
    | v ↦ compare_to c.path exists v q
  ]
  | one_of ↦ elim c.value [
    | list vs ↦
        bind_each vs
          (add (ascii " AND " ++ (extract c.path ++ (ascii " IN (" ++ (marks vs ++ ascii ")")))) q)
    | v ↦ compare_to c.path one_of v q
  ]
  | not_in ↦ elim c.value [
    | list vs ↦
        bind_each vs (add (none_or c.path (ascii " NOT IN (" ++ (marks vs ++ ascii "))"))) q)
    | v ↦ compare_to c.path not_in v q
  ]
  | ne ↦ bind_value c.value (add (none_or c.path (ascii " <> ?)")) q)
  | contains ↦ bind_value c.value (
      add
        (ascii " AND EXISTS (SELECT 1 FROM json_each(documents.data, "
          ++ (c.path ++ ascii ") WHERE json_each.value = ?)"))
        q)
  | op ↦ compare_to c.path op c.value q
]

unfoldable pub push_all : List Condition → Sql → Sql
unfolding push_condition
push_all [] q = q
push_all (c ∷ cs) q = push_all cs (push_condition c q)

abbrev pub sorted_by : Sort → Bytes
sorted_by (column col) = col
sorted_by (path p) = extract p

abbrev pub order_of : Bool → Bytes
order_of descending = if descending then ascii "DESC" else ascii "ASC"

unfoldable pub build : Query → Sql
unfolding push_all
build query =
    let selected : Sql = record {
      sql =
          ascii
            "SELECT collection, id, data, created_at, updated_at FROM documents WHERE collection = ?";
      binds = bound_text query.collection ∷ [];
    } in
    add
      (ascii " ORDER BY "
        ++ (sorted_by query.sort ++ (ascii " " ++ (order_of query.descending ++ ascii ", id ASC"))))
      (push_all query.filter selected)
