-- ===== src/Wire/Value/Order.antt =====
-- The fields of a table in the order of their keys, as a `BTreeMap` holds them.
use Prim.Native.Nat.{Ordering}
use oxigeon.Base.{◌≡◌, refl, ap, arith}
use oxigeon.Wire.Value.{Key, LuaData, Fields, end, field, compare_keys, insert}

abbrev pub AllKeys : (Key → Type 0) → Fields → Type 0
AllKeys P end = Unit {0}
AllKeys P (field k _ fs) = P k × AllKeys P fs

-- `k` comes behind every key of the fields.
abbrev pub Behind : Fields → Key → Type 0
Behind fs k = AllKeys (λ j. compare_keys k j ≡ Ordering.gt) fs

-- Every key comes behind those before it.
abbrev pub IsSorted : Fields → Type 0
IsSorted end = Unit {0}
IsSorted (field k _ fs) = AllKeys (λ j. compare_keys j k ≡ Ordering.gt) fs × IsSorted fs

abbrev pub concat : Fields → Fields → Fields
concat end gs = gs
concat (field k d fs) gs = field k d (concat fs gs)

pub concat-end : (fs : Fields) → concat fs end ≡ fs
concat-end end = refl
concat-end (field k d fs) = ap (field k d) (concat-end fs)

pub concat_assoc : (xs ys zs : Fields) → concat (concat xs ys) zs ≡ concat xs (concat ys zs)
concat_assoc end ys zs = refl
concat_assoc (field k d xs) ys zs = ap (field k d) (concat_assoc xs ys zs)

-- A key behind all others is put last.
pub insert-Behind :
    (k : Key) (d : LuaData) (fs : Fields) → Behind fs k → insert k d fs ≡ concat fs (field k d end)
unfolding insert
insert-Behind k d end b = refl
insert-Behind k d (field j e fs) b = ground (arith, insert-Behind k d fs b.1)

pub Behind-concat :
    (j k : Key) (d : LuaData) (fs : Fields)
    → Behind fs j
    → compare_keys j k ≡ Ordering.gt
    → Behind (concat fs (field k d end)) j
Behind-concat j k d end b c = (c, tt)
Behind-concat j k d (field i e fs) b c = (b.0, Behind-concat j k d fs b.1 c)

-- The fields `gs` all come behind `fs`; with a first one put last in `fs`, the others still do.
pub AllBehind-concat :
    (fs : Fields) (k : Key) (d : LuaData) (gs : Fields)
    → AllKeys (Behind fs) gs
    → AllKeys (λ j. compare_keys j k ≡ Ordering.gt) gs
    → AllKeys (Behind (concat fs (field k d end))) gs
AllBehind-concat fs k d end b c = tt
AllBehind-concat fs k d (field j e gs) b c =
    (Behind-concat j k d fs b.0 c.0, AllBehind-concat fs k d gs b.1 c.1)

pub AllBehind-end : (gs : Fields) → AllKeys (Behind end) gs
AllBehind-end end = tt
AllBehind-end (field k d gs) = (tt, AllBehind-end gs)
