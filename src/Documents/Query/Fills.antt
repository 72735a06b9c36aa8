-- ===== src/Documents/Query/Fills.antt =====
-- What fills the holes of a text, and what `bind_value` and `bind_each` add to it.
use oxigeon.Base.{
  ℕ, ◌+◌, true, false, List, [], ◌∷◌, ◌++◌, ◌==◌, if◌then◌else◌, Bytes, ◌≡◌, refl, sym, ap, ◌∙◌,
  subst, arith, append_assoc, append-nil,
}
use oxigeon.Base.Utf8.{ascii}
use oxigeon.Documents.Query.{
  FilterValue, text, int, real, bool, list, present, FilterValues, no_more, item, Bind, Sql, add,
  bind_value, bind_each, marks, extract,
}
use oxigeon.Documents.Query.Meaning.{Piece, bound_of, field, fill, given, listed, plain, spell}

-- The holes of a query are its question marks.
unfoldable pub holes : Bytes → ℕ
holes [] = 0
holes (c ∷ cs) = if c == b'?' then 1 + holes cs else holes cs

pub holes-append : (s t : Bytes) → holes (s ++ t) ≡ holes s + holes t
unfolding holes
holes-append [] t = omega arith
holes-append (c ∷ cs) t = ground (arith, holes-append cs t)

-- A text whose holes take all of these values, and is then so.
pub record Fills (s : Bytes) (bs : List Bind) (m : List Piece) : Type 0 where
  pub fills : (t : Bytes) (cs : List Bind) → fill (s ++ t) (bs ++ cs) ≡ m ++ fill t cs

pub Fills-append :
    (s t : Bytes) (bs cs : List Bind) (m n : List Piece)
    → Fills s bs m
    → Fills t cs n
    → Fills (s ++ t) (bs ++ cs) (m ++ n)
Fills-append s t bs cs m n h k = record {
  fills = λ u ds.
      ap (λ x. fill x ((bs ++ cs) ++ ds)) (append_assoc s t u)
      ∙ ap (fill (s ++ (t ++ u))) (append_assoc bs cs ds)
      ∙ h.fills (t ++ u) (cs ++ ds)
      ∙ ap (◌++◌ m) (k.fills u ds)
      ∙ sym (append_assoc m n (fill u ds));
}

fill-spell : (s t : Bytes) (cs : List Bind) → holes s ≡ 0 → fill (s ++ t) cs ≡ spell s ++ fill t cs
unfolding fill holes
fill-spell [] t cs h = refl
fill-spell (c ∷ s) t [] h = ground (arith, fill-spell s t [] (ground (arith, h)))
fill-spell (c ∷ s) t (b ∷ bs) h = ground (arith, fill-spell s t (b ∷ bs) (ground (arith, h)))

pub Fills-spell : (s : Bytes) → holes s ≡ 0 → Fills s [] (spell s)
Fills-spell s h = record { fills = λ t cs. fill-spell s t cs h }

-- A text without a hole in front of another.
pub Fills-behind :
    (s t : Bytes) (bs : List Bind) (m : List Piece)
    → holes s ≡ 0
    → Fills t bs m
    → Fills (s ++ t) bs (spell s ++ m)
Fills-behind s t bs m h k = Fills-append s t [] bs (spell s) m (Fills-spell s h) k

pub Fills-before :
    (s t : Bytes) (bs : List Bind) (m : List Piece)
    → holes t ≡ 0
    → Fills s bs m
    → Fills (s ++ t) bs (m ++ spell t)
Fills-before s t bs m h k =
    subst (λ x. Fills (s ++ t) x (m ++ spell t)) (append-nil bs)
      (Fills-append s t bs [] m (spell t) k (Fills-spell t h))

pub Fills-field : (p : Bytes) → holes p ≡ 0 → Fills (extract p) [] (field p)
unfolding holes
Fills-field p h =
    Fills-behind (ascii "json_extract(data, ") (p ++ ascii ")") [] _ refl
      (Fills-behind p (ascii ")") [] _ h (Fills-spell (ascii ")") refl))

pub Fills-behind_field :
    (p t : Bytes) (bs : List Bind) (m : List Piece)
    → holes p ≡ 0
    → Fills t bs m
    → Fills (extract p ++ t) bs (field p ++ m)
Fills-behind_field p t bs m h k = Fills-append (extract p) t [] bs (field p) m (Fills-field p h) k

abbrev pub IsScalar : FilterValue → Type 0
IsScalar (list _) = ⊥
IsScalar (present _) = ⊥
IsScalar _ = Unit {0}

abbrev pub AreScalars : FilterValues → Type 0
AreScalars no_more = Unit {0}
AreScalars (item v vs) = IsScalar v × AreScalars vs

abbrev pub bounds : FilterValues → List Bind
bounds no_more = []
bounds (item v vs) = bound_of v ∷ bounds vs

fill-marks :
    (vs : FilterValues) (t : Bytes) (cs : List Bind)
    → fill (marks vs ++ t) (bounds vs ++ cs) ≡ listed vs ++ fill t cs
unfolding marks fill
fill-marks no_more t cs = refl
fill-marks (item v no_more) t cs = refl
fill-marks (item v (item w ws)) t cs =
    ap (λ x. given (bound_of v) ∷ (plain (b',') ∷ x)) (fill-marks (item w ws) t cs)

pub Fills-marks : (vs : FilterValues) → Fills (marks vs) (bounds vs) (listed vs)
Fills-marks vs = record { fills = fill-marks vs }

bind_value-bound_of :
    (v : FilterValue) (q : Sql)
    → IsScalar v
    → bind_value v q ≡ record q { binds = q.binds ++ bound_of v ∷ [] }
unfolding bind_value
bind_value-bound_of (text s) q h = refl
bind_value-bound_of (int i) q h = refl
bind_value-bound_of (real f) q h = refl
bind_value-bound_of (bool true) q h = refl
bind_value-bound_of (bool false) q h = refl
bind_value-bound_of (list vs) q h = absurd h
bind_value-bound_of (present b) q h = absurd h

bind_each-bounds :
    (vs : FilterValues) (q : Sql)
    → AreScalars vs
    → bind_each vs q ≡ record q { binds = q.binds ++ bounds vs }
unfolding bind_each
bind_each-bounds no_more q h = ap (λ bs. record q { binds = bs }) (sym (append-nil q.binds))
bind_each-bounds (item v vs) q (h, hs) =
    ap (bind_each vs) (bind_value-bound_of v q h)
    ∙ bind_each-bounds vs (record q { binds = q.binds ++ bound_of v ∷ [] }) hs
    ∙ ap (λ bs. record q { binds = bs }) (append_assoc q.binds (bound_of v ∷ []) (bounds vs))

-- The query so far, its holes filled.
abbrev pub Means : Sql → List Piece → Type 0
Means q m = Fills q.sql q.binds m

pub Means-add :
    (s : Bytes) (q : Sql) (m n : List Piece) → Means q m → Fills s [] n → Means (add s q) (m ++ n)
Means-add s q m n h k =
    subst (λ x. Fills (q.sql ++ s) x (m ++ n)) (append-nil q.binds)
      (Fills-append q.sql s q.binds [] m n h k)

pub Means-bind_value :
    (s : Bytes) (v : FilterValue) (q : Sql) (m n : List Piece)
    → IsScalar v
    → Means q m
    → Fills s (bound_of v ∷ []) n
    → Means (bind_value v (add s q)) (m ++ n)
Means-bind_value s v q m n f h k =
    subst (λ x. Means x (m ++ n)) (sym (bind_value-bound_of v (add s q) f))
      (Fills-append q.sql s q.binds (bound_of v ∷ []) m n h k)

pub Means-bind_each :
    (s : Bytes) (vs : FilterValues) (q : Sql) (m n : List Piece)
    → AreScalars vs
    → Means q m
    → Fills s (bounds vs) n
    → Means (bind_each vs (add s q)) (m ++ n)
Means-bind_each s vs q m n f h k =
    subst (λ x. Means x (m ++ n)) (sym (bind_each-bounds vs (add s q) f))
      (Fills-append q.sql s q.binds (bounds vs) m n h k)
