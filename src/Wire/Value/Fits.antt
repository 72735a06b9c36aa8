-- ===== src/Wire/Value/Fits.antt =====
-- The values of marshal.rs that the program can hold, and how deep they nest.
use Prim.Native.Nat.{max}
use oxigeon.Base.{ℕ, suc, ◌≤◌, ◌<◌, arith, length}
use oxigeon.Wire.Cursor.{u64_mod}
use oxigeon.Wire.Value.{
  Key, LuaData, nil, bool, num, table, Items, done, item, Fields, end, field, count_items,
  count_fields,
}
use oxigeon.Wire.Value.Order.{IsSorted}

abbrev pub FitsKey : Key → Type 0
FitsKey (Key.int i) = i < u64_mod
FitsKey (Key.str s) = length s < u64_mod

-- What every `LuaData` of the program meets: numbers of 64 bits, lengths that a `usize` holds, and
-- maps in the order of their keys.
abbrev mutual
  pub Fits : LuaData → Type 0
  Fits nil = Unit {0}
  Fits (bool _) = Unit {0}
  Fits (LuaData.int i) = i < u64_mod
  Fits (num n) = n < u64_mod
  Fits (LuaData.str s) = length s < u64_mod
  Fits (table xs fs) =
      (count_items xs < u64_mod)
      × FitsItems xs
      × (count_fields fs < u64_mod)
      × FitsFields fs
      × IsSorted fs

  pub FitsItems : Items → Type 0
  FitsItems done = Unit {0}
  FitsItems (item d xs) = Fits d × FitsItems xs

  pub FitsFields : Fields → Type 0
  FitsFields end = Unit {0}
  FitsFields (field k d fs) = FitsKey k × Fits d × FitsFields fs

-- How many levels of tables a value has, itself included.
abbrev mutual
  pub levels : LuaData → ℕ
  levels (table xs fs) = suc (max (levels_items xs) (levels_fields fs))
  levels _ = 1

  pub levels_items : Items → ℕ
  levels_items done = 0
  levels_items (item d xs) = max (levels d) (levels_items xs)

  pub levels_fields : Fields → ℕ
  levels_fields end = 0
  levels_fields (field _ d fs) = max (levels d) (levels_fields fs)

pub levels_pos : (d : LuaData) → 1 ≤ levels d
levels_pos nil = omega arith
levels_pos (table xs fs) = omega arith
levels_pos _ = omega arith
