-- ===== src/Wire/Value.antt =====
-- crates/oxigeon-lua/src/marshal.rs: `LuaData`, `Table` and `Key`, and what wire.rs writes and reads
-- of them.
--
-- A table's `seq` is `Items`, its `BTreeMap` is `Fields`, in the order of the keys. An `i64` and an
-- `f64` are their 64 bits. `get_data` counts the nesting down: `depth > MAX_DEPTH` is a count of 0.
pub mod Order
pub mod Fits
pub mod RoundTrip
pub mod Bounds
use Prim.Native.Nat.{compare, Ordering}
use oxigeon.Base.{
  ℕ, zero, suc, ◌+◌, ◌-◌, ◌%◌, ◌^◌, Bool, true, false, not, List, [], ◌∷◌, ◌++◌, ◌==◌,
  if◌then◌else◌, Bytes,
}
use oxigeon.Wire.Cursor.{
  too_deep, bad_key_tag, bad_value_tag, Read, pure, fail, ◌>>=◌, put_u8, put_u64, put_bytes, get_u8,
  get_u64, get_bytes, u64_mod,
}

pub data Key : Type 0 where
  int : ℕ → Key
  str : Bytes → Key

mutual
  pub data LuaData : Type 0 where
    nil : LuaData
    bool : Bool → LuaData
    int : ℕ → LuaData
    num : ℕ → LuaData
    str : Bytes → LuaData
    table : Items → Fields → LuaData

  pub data Items : Type 0 where
    done : Items
    item : LuaData → Items → Items

  pub data Fields : Type 0 where
    end : Fields
    field : Key → LuaData → Fields → Fields

abbrev pub count_items : Items → ℕ
count_items done = 0
count_items (item _ xs) = suc (count_items xs)

abbrev pub count_fields : Fields → ℕ
count_fields end = 0
count_fields (field _ _ fs) = suc (count_fields fs)

abbrev pub max_depth : ℕ
max_depth = 256

unfoldable pub put_key : Key → Bytes
put_key (Key.int i) = put_u8 2 ++ put_u64 i
put_key (Key.str s) = put_u8 4 ++ put_bytes s

abbrev bit : Bool → ℕ
bit true = 1
bit false = 0

unfoldable mutual
  unfolding put_key

  pub put_data : LuaData → Bytes
  put_data nil = put_u8 0
  put_data (bool b) = put_u8 1 ++ put_u8 (bit b)
  put_data (LuaData.int i) = put_u8 2 ++ put_u64 i
  put_data (num n) = put_u8 3 ++ put_u64 n
  put_data (LuaData.str s) = put_u8 4 ++ put_bytes s
  put_data (table seq map) =
      put_u8 5
      ++ (put_u64 (count_items seq)
          ++ (put_items seq ++ (put_u64 (count_fields map) ++ put_fields map)))

  pub put_items : Items → Bytes
  put_items done = []
  put_items (item d xs) = put_data d ++ put_items xs

  pub put_fields : Fields → Bytes
  put_fields end = []
  put_fields (field k d fs) = put_key k ++ (put_data d ++ put_fields fs)

-- The order of `Key`: an integer before a string, integers as signed, strings by their bytes.
unfoldable pub signed : ℕ → ℕ
signed i = (i + 2 ^ 63) % u64_mod

unfoldable pub compare_bytes : Bytes → Bytes → Ordering
compare_bytes [] [] = Ordering.eq
compare_bytes [] (_ ∷ _) = Ordering.lt
compare_bytes (_ ∷ _) [] = Ordering.gt
compare_bytes (x ∷ xs) (y ∷ ys) = elim (compare x y) [
  | Ordering.eq ↦ compare_bytes xs ys
  | Ordering.lt ↦ Ordering.lt
  | Ordering.gt ↦ Ordering.gt
]

unfoldable pub compare_keys : Key → Key → Ordering
unfolding compare_bytes signed
compare_keys (Key.int a) (Key.int b) = compare (signed a) (signed b)
compare_keys (Key.int _) (Key.str _) = Ordering.lt
compare_keys (Key.str _) (Key.int _) = Ordering.gt
compare_keys (Key.str a) (Key.str b) = compare_bytes a b

-- `BTreeMap::insert`: the order is kept, and an equal key has its value replaced.
unfoldable pub insert : Key → LuaData → Fields → Fields
insert k d end = field k d end
insert k d (field j e fs) = elim (compare_keys k j) [
  | Ordering.lt ↦ field k d (field j e fs)
  | Ordering.eq ↦ field j d fs
  | Ordering.gt ↦ field j e (insert k d fs)
]

key_of : ℕ → Read Key
key_of tag =
    if tag == 2
    then (do i ← get_u64; pure (Key.int i))
    else if tag == 4
    then (do s ← get_bytes; pure (Key.str s))
    else fail (bad_key_tag tag)

unfoldable pub get_key : Read Key
unfolding key_of
get_key = do tag ← get_u8; key_of tag

-- The two loops of the `T_TABLE` arm, over the reader of a value one level down.
unfoldable pub get_items : Read LuaData → ℕ → Read Items
get_items value zero = pure done
get_items value (suc n) = do d ← value; xs ← get_items value n; pure (item d xs)

unfoldable pub get_fields : Read LuaData → ℕ → Fields → Read Fields
unfolding get_key insert
get_fields value zero acc = pure acc
get_fields value (suc n) acc = do k ← get_key; d ← value; get_fields value n (insert k d acc)

get_table : Read LuaData → Read LuaData
unfolding get_items get_fields
get_table value = do
  n ← get_u64
  seq ← get_items value n
  m ← get_u64
  map ← get_fields value m end
  pure (table seq map)

unfoldable pub value_of : Read LuaData → ℕ → Read LuaData
unfolding get_table
value_of value tag =
    if tag == 0
    then pure nil
    else if tag == 1
    then (do b ← get_u8; pure (bool (not (b == 0))))
    else if tag == 2
    then (do i ← get_u64; pure (LuaData.int i))
    else if tag == 3
    then (do n ← get_u64; pure (num n))
    else if tag == 4
    then (do s ← get_bytes; pure (LuaData.str s))
    else if tag == 5
    then get_table value
    else fail (bad_value_tag tag)

-- `get_data(c, depth)` is `get_levels (MAX_DEPTH + 1 - depth) c`.
unfoldable pub get_levels : ℕ → Read LuaData
unfolding value_of
get_levels zero = fail too_deep
get_levels (suc f) = do tag ← get_u8; value_of (get_levels f) tag

unfoldable pub get_data : Read LuaData
unfolding get_levels compare_keys
get_data = get_levels (suc max_depth)
