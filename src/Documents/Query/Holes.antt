-- ===== src/Documents/Query/Holes.antt =====
-- src/domain/models/document.rs: what `build` makes of each condition, and of the whole.
use oxigeon.Base.{
  Bool, true, false, List, [], ◌∷◌, ◌++◌, Bytes, All, ◌≡◌, refl, sym, ap, ◌∙◌, subst, arith,
  append_assoc, append-nil,
}
use oxigeon.Base.Utf8.{ascii}
use oxigeon.Documents.{ok, parse}
use oxigeon.Documents.Literal.{IsInert, parse-Closed}
use oxigeon.Documents.Query.{
  Op, eq, ne, gt, ge, lt, le, one_of, not_in, like, exists, contains, FilterValue, text, int, real,
  bool, list, present, FilterValues, Bind, bound_text, Condition, Query, Sort, column, path, Sql,
  marks, extract, sql_op, presence, none_or, compare_to, push_condition, push_all, sorted_by,
  order_of, build,
}
use oxigeon.Documents.Query.Fills.{
  AreScalars, Fills, Fills-append, Fills-before, Fills-behind, Fills-behind_field, Fills-field,
  Fills-marks, Fills-spell, IsScalar, Means, Means-add, Means-bind_each, Means-bind_value, bounds,
  holes, holes-append,
}
use oxigeon.Documents.Query.Meaning.{
  Piece, absent_or, all_asked, asked, bound_of, compared, direction, fill, given, listed, meaning,
  ordering, plain, selection, sign, sort_key, spell,
}

-- The value is of the kind that the operator takes.
abbrev pub Fits : Op → FilterValue → Type 0
Fits exists (present _) = Unit {0}
Fits exists _ = ⊥
Fits one_of (list vs) = AreScalars vs
Fits one_of _ = ⊥
Fits not_in (list vs) = AreScalars vs
Fits not_in _ = ⊥
Fits _ v = IsScalar v

IsInert-holes : (s : Bytes) → IsInert s → holes s ≡ 0
unfolding holes
IsInert-holes [] h = refl
IsInert-holes (c ∷ cs) (h, hs) = ground (arith, IsInert-holes cs hs)

-- A path that was parsed has no question mark in it.
parse-holes : (key p : Bytes) → parse key ≡ ok p → holes p ≡ 0
unfolding holes
parse-holes key p h =
    let (body, e, k) = parse-Closed key p h in
    ap holes e ∙ omega (arith, holes-append body (b'\'' ∷ []), IsInert-holes body k)

-- What `JsonPath::parse` gives, which is the only way to a path.
abbrev IsParsed : Bytes → Type 0
IsParsed p = (key : Bytes) × (parse key ≡ ok p)

-- A path that was parsed, and a value that fits.
abbrev pub IsSound : Condition → Type 0
IsSound c = IsParsed c.path × Fits c.op c.value

-- A column without a question mark in its name, or a path that was parsed.
abbrev pub IsKey : Sort → Type 0
IsKey (column col) = holes col ≡ 0
IsKey (path p) = IsParsed p

-- The operators that stand between a field and its value.
abbrev IsSign : Op → Type 0
IsSign exists = ⊥
IsSign one_of = ⊥
IsSign not_in = ⊥
IsSign ne = ⊥
IsSign contains = ⊥
IsSign _ = Unit {0}

sql_op-sign : (op : Op) → IsSign op → (sql_op op ≡ sign op) × (holes (sql_op op) ≡ 0)
unfolding sql_op holes
sql_op-sign eq h = (refl, refl)
sql_op-sign gt h = (refl, refl)
sql_op-sign ge h = (refl, refl)
sql_op-sign lt h = (refl, refl)
sql_op-sign le h = (refl, refl)
sql_op-sign like h = (refl, refl)
sql_op-sign ne h = absurd h
sql_op-sign one_of h = absurd h
sql_op-sign not_in h = absurd h
sql_op-sign exists h = absurd h
sql_op-sign contains h = absurd h

Means-compare_to :
    (p : Bytes) (op : Op) (v : FilterValue) (q : Sql) (m : List Piece)
    → holes p ≡ 0
    → IsSign op
    → IsScalar v
    → Means q m
    → Means (compare_to p op v q) (m ++ compared p op (bound_of v))
unfolding compare_to holes fill
Means-compare_to p op v q m h i f k =
    let (e, none_in) = sql_op-sign op i in
    let b = bound_of v ∷ [] in
    let value : Fills (ascii " ?") b (plain (b' ') ∷ (given (bound_of v) ∷ [])) = record {
      fills = λ t cs. refl;
    } in
    let signed : Fills (sql_op op ++ ascii " ?") b
        (spell (sign op) ++ (plain (b' ') ∷ (given (bound_of v) ∷ []))) =
      subst
        (λ s.
          Fills (sql_op op ++ ascii " ?") b (spell s ++ (plain (b' ') ∷ (given (bound_of v) ∷ []))))
        e (Fills-behind (sql_op op) (ascii " ?") b _ none_in value) in
    Means-bind_value _ v q m _ f k (
      Fills-behind (ascii " AND ") _ b _ refl
        (Fills-behind_field p _ b _ h (Fills-behind (ascii " ") _ b _ refl signed)))

Fills-none_or :
    (p test : Bytes) (bs : List Bind) (m : List Piece)
    → holes p ≡ 0
    → Fills test bs m
    → Fills (none_or p test) bs (absent_or p m)
unfolding holes
Fills-none_or p test bs m h k = Fills-behind (ascii " AND (") _ bs _ refl (
    Fills-behind_field p _ bs _ h
      (Fills-behind (ascii " IS NULL OR ") _ bs _ refl (Fills-behind_field p test bs m h k)))

Fills-presence :
    (p : Bytes) (want : Bool)
    → holes p ≡ 0
    → Fills (ascii " AND " ++ (extract p ++ presence want)) [] (asked p exists (present want))
unfolding holes
Fills-presence p true h =
    Fills-behind (ascii " AND ") _ [] _ refl
      (Fills-behind_field p (presence true) [] _ h (Fills-spell (ascii " IS NOT NULL") refl))
Fills-presence p false h =
    Fills-behind (ascii " AND ") _ [] _ refl
      (Fills-behind_field p (presence false) [] _ h (Fills-spell (ascii " IS NULL") refl))

Fills-in :
    (vs : FilterValues) (s t : Bytes)
    → holes s ≡ 0
    → holes t ≡ 0
    → Fills (s ++ (marks vs ++ t)) (bounds vs) (spell s ++ (listed vs ++ spell t))
Fills-in vs s t h k =
    Fills-behind s (marks vs ++ t) (bounds vs) _ h
      (Fills-before (marks vs) t (bounds vs) (listed vs) k (Fills-marks vs))

Fills-unequal :
    (b : Bind)
    → Fills (ascii " <> ?)") (b ∷ []) (spell (ascii " <> ") ++ (given b ∷ spell (ascii ")")))
unfolding fill holes
Fills-unequal b =
    Fills-before (ascii " <> ?") (ascii ")") (b ∷ []) (spell (ascii " <> ") ++ given b ∷ []) refl
      (record { fills = λ t cs. refl })

Fills-member :
    (b : Bind)
    → Fills
        (ascii ") WHERE json_each.value = ?)")
        (b ∷ [])
        (spell (ascii ") WHERE json_each.value = ") ++ (given b ∷ spell (ascii ")")))
unfolding fill holes
Fills-member b =
    Fills-before (ascii ") WHERE json_each.value = ?") (ascii ")") (b ∷ [])
      (spell (ascii ") WHERE json_each.value = ") ++ given b ∷ []) refl
      (record { fills = λ t cs. refl })

Fills-selected :
    (b : Bind)
    → Fills
        (ascii
          "SELECT collection, id, data, created_at, updated_at FROM documents WHERE collection = ?")
        (b ∷ [])
        (spell (
            ascii
              "SELECT collection, id, data, created_at, updated_at FROM documents WHERE collection = ")
          ++ given b ∷ [])
unfolding fill
Fills-selected b = record { fills = λ t cs. refl }

Means-push :
    (p : Bytes) (op : Op) (v : FilterValue) (q : Sql) (m : List Piece)
    → holes p ≡ 0
    → Fits op v
    → Means q m
    → Means (push_condition (record { path = p; op = op; value = v }) q) (m ++ asked p op v)
unfolding push_condition holes fill
Means-push p exists (present want) q m h f k = Means-add _ q m _ k (Fills-presence p want h)
Means-push p one_of (list vs) q m h f k = Means-bind_each _ vs q m _ f k (
    Fills-behind (ascii " AND ") _ (bounds vs) _ refl
      (Fills-behind_field p _ (bounds vs) _ h (Fills-in vs (ascii " IN (") (ascii ")") refl refl)))
Means-push p not_in (list vs) q m h f k =
    Means-bind_each _ vs q m _ f k
      (Fills-none_or p _ (bounds vs) _ h (Fills-in vs (ascii " NOT IN (") (ascii "))") refl refl))
Means-push p ne v q m h f k =
    Means-bind_value _ v q m _ f k
      (Fills-none_or p _ (bound_of v ∷ []) _ h (Fills-unequal (bound_of v)))
Means-push p contains v q m h f k = Means-bind_value _ v q m _ f k (
    Fills-behind (ascii " AND EXISTS (SELECT 1 FROM json_each(documents.data, ") _ (bound_of v ∷ [])
      _ refl
      (Fills-behind p (ascii ") WHERE json_each.value = ?)") (bound_of v ∷ []) _ h
        (Fills-member (bound_of v))))
Means-push p eq v q m h f k = Means-compare_to p eq v q m h tt f k
Means-push p gt v q m h f k = Means-compare_to p gt v q m h tt f k
Means-push p ge v q m h f k = Means-compare_to p ge v q m h tt f k
Means-push p lt v q m h f k = Means-compare_to p lt v q m h tt f k
Means-push p le v q m h f k = Means-compare_to p le v q m h tt f k
Means-push p like v q m h f k = Means-compare_to p like v q m h tt f k
Means-push p exists (text _) q m h f k = absurd f
Means-push p exists (int _) q m h f k = absurd f
Means-push p exists (real _) q m h f k = absurd f
Means-push p exists (bool _) q m h f k = absurd f
Means-push p exists (list _) q m h f k = absurd f
Means-push p one_of (text _) q m h f k = absurd f
Means-push p one_of (int _) q m h f k = absurd f
Means-push p one_of (real _) q m h f k = absurd f
Means-push p one_of (bool _) q m h f k = absurd f
Means-push p one_of (present _) q m h f k = absurd f
Means-push p not_in (text _) q m h f k = absurd f
Means-push p not_in (int _) q m h f k = absurd f
Means-push p not_in (real _) q m h f k = absurd f
Means-push p not_in (bool _) q m h f k = absurd f
Means-push p not_in (present _) q m h f k = absurd f

Means-push_all :
    (cs : List Condition) (q : Sql) (m : List Piece)
    → All IsSound cs
    → Means q m
    → Means (push_all cs q) (m ++ all_asked cs)
unfolding push_all
Means-push_all [] q m h k = subst (Means q) (sym (append-nil m)) k
Means-push_all (c ∷ cs) q m (((key, h), f), hs) k =
    subst (Means (push_all cs (push_condition c q)))
      (append_assoc m (asked c.path c.op c.value) (all_asked cs))
      (Means-push_all cs (push_condition c q) (m ++ asked c.path c.op c.value) hs
        (Means-push c.path c.op c.value q m (parse-holes key c.path h) f k))

Fills-sorted_by : (s : Sort) → IsKey s → Fills (sorted_by s) [] (sort_key s)
Fills-sorted_by (column col) h = Fills-spell col h
Fills-sorted_by (path p) (key, h) = Fills-field p (parse-holes key p h)

Fills-direction :
    (descending : Bool)
    → Fills (ascii " " ++ (order_of descending ++ ascii ", id ASC")) [] (direction descending)
unfolding holes
Fills-direction true = Fills-spell (ascii " DESC, id ASC") refl
Fills-direction false = Fills-spell (ascii " ASC, id ASC") refl

-- Whatever the conditions, if their paths and that of the sort were parsed, a column's name has no
-- question mark, and a condition's value is of the kind that its operator takes: the text of a query,
-- with its holes filled by what is bound, first to first, is the query with the collection and with
-- every condition's own values written in their places, and no value is left over.
pub build-meaning :
    (query : Query)
    → All IsSound query.filter
    → IsKey query.sort
    → fill (build query).sql (build query).binds ≡ meaning query
unfolding build holes fill
build-meaning query h s =
    let selected : Sql = record {
      sql =
          ascii
            "SELECT collection, id, data, created_at, updated_at FROM documents WHERE collection = ?";
      binds = bound_text query.collection ∷ [];
    } in
    let q = push_all query.filter selected in
    let filled =
      Means-push_all query.filter selected (selection query.collection) h
        (Fills-selected (bound_text query.collection)) in
    let ordered = Fills-behind (ascii " ORDER BY ") _ [] _ refl (
      Fills-append (sorted_by query.sort) _ [] [] (sort_key query.sort) _
        (Fills-sorted_by query.sort s) (Fills-direction query.descending)) in
    let all = Means-add _ q _ (ordering query) filled ordered in
    ap (λ x. fill x (build query).binds) (sym (append-nil (build query).sql))
    ∙ ap (fill ((build query).sql ++ [])) (sym (append-nil (build query).binds))
    ∙ all.fills [] []
    ∙ append-nil _
    ∙ append_assoc (selection query.collection) (all_asked query.filter) (ordering query)
