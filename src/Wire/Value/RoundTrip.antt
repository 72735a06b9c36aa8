-- ===== src/Wire/Value/RoundTrip.antt =====
-- A value that was written is read back as it was.
use oxigeon.Base.{
  ℕ, zero, suc, ◌≤◌, ◌<◌, true, false, not, ◌==◌, [], ◌++◌, ◌≡◌, ◌∙◌, arith, Bytes, length,
}
use oxigeon.Wire.Cursor.{ok, Read, u64_mod, put_u8, put_u64, put_bytes, get_u8, get_u64, get_bytes}
use oxigeon.Wire.Reads.{
  at, Reads, Reads-pure, Reads-map, Reads-bind, Reads-u8, Reads-u64, Reads-bytes,
}
use oxigeon.Wire.Value.{
  Key, LuaData, nil, bool, num, table, Items, done, item, Fields, end, field, count_items,
  count_fields, put_key, put_data, put_items, put_fields, insert, get_key, get_items, get_fields,
  value_of, get_levels, get_data, max_depth,
}
use oxigeon.Wire.Value.Fits.{
  FitsKey, Fits, FitsItems, FitsFields, levels, levels_items, levels_fields, levels_pos,
}
use oxigeon.Wire.Value.Order.{
  AllKeys, Behind, IsSorted, concat, concat-end, concat_assoc, insert-Behind, AllBehind-concat,
  AllBehind-end,
}

Reads-key : (k : Key) → FitsKey k → Reads get_key (put_key k) k
unfolding get_key put_key
Reads-key (Key.int i) h =
    Reads-bind get_u8 _ (put_u8 2) (put_u64 i) 2 (Key.int i) (Reads-u8 2)
      (Reads-map get_u64 Key.int (put_u64 i) i (Reads-u64 i h))
Reads-key (Key.str s) h =
    Reads-bind get_u8 _ (put_u8 4) (put_bytes s) 4 (Key.str s) (Reads-u8 4)
      (Reads-map get_bytes Key.str (put_bytes s) s (Reads-bytes s h))

-- A value behind its tag.
Reads-tag :
    (f tag : ℕ) (s : Bytes) (d : LuaData)
    → Reads (value_of (get_levels f) tag) s d
    → Reads (get_levels (suc f)) (put_u8 tag ++ s) d
unfolding get_levels
Reads-tag f tag s d p =
    Reads-bind get_u8 (value_of (get_levels f)) (put_u8 tag) s tag d (Reads-u8 tag) p

-- The fields behind `acc`, one put last and read on.
Reads-next_field :
    (value : Read LuaData) (n : ℕ) (acc : Fields) (k : Key) (d : LuaData) (fs : Fields) (s : Bytes)
    → Behind acc k
    → Reads
        (get_fields value n (concat acc (field k d end)))
        s
        (concat (concat acc (field k d end)) fs)
    → Reads (get_fields value n (insert k d acc)) s (concat acc (field k d fs))
Reads-next_field value n acc k d fs s b p pre rest h =
    rw (insert-Behind k d acc b) (p pre rest h ∙ rw concat_assoc)

-- The arm of a table, from the reads of its two loops.
Reads-table :
    (value : Read LuaData) (xs : Items) (fs : Fields)
    → count_items xs < u64_mod
    → count_fields fs < u64_mod
    → Reads (get_items value (count_items xs)) (put_items xs) xs
    → Reads (get_fields value (count_fields fs) end) (put_fields fs) fs
    → Reads
        (value_of value 5)
        (put_u64 (count_items xs) ++ (put_items xs ++ (put_u64 (count_fields fs) ++ put_fields fs)))
        (table xs fs)
unfolding value_of
Reads-table value xs fs h k p q =
    Reads-bind get_u64 _ (put_u64 (count_items xs)) _ (count_items xs) (table xs fs) (Reads-u64 _ h)
      (Reads-bind (get_items value (count_items xs)) _ (put_items xs) _ xs (table xs fs) p (
        Reads-bind get_u64 _ (put_u64 (count_fields fs)) _ (count_fields fs) (table xs fs)
          (Reads-u64 _ k)
          (Reads-map (get_fields value (count_fields fs) end) (table xs) (put_fields fs) fs q)))

Reads-item :
    (value : Read LuaData) (d : LuaData) (xs : Items)
    → Reads value (put_data d) d
    → Reads (get_items value (count_items xs)) (put_items xs) xs
    → Reads (get_items value (suc (count_items xs))) (put_data d ++ put_items xs) (item d xs)
unfolding get_items
Reads-item value d xs p q =
    Reads-bind value _ (put_data d) (put_items xs) d (item d xs) p
      (Reads-map (get_items value (count_items xs)) (item d) (put_items xs) xs q)

Reads-field :
    (value : Read LuaData) (n : ℕ) (acc : Fields) (k : Key) (d : LuaData) (s : Bytes) (all : Fields)
    → FitsKey k
    → Reads value (put_data d) d
    → Reads (get_fields value n (insert k d acc)) s all
    → Reads (get_fields value (suc n) acc) (put_key k ++ (put_data d ++ s)) all
unfolding get_fields
Reads-field value n acc k d s all h p q =
    Reads-bind get_key _ (put_key k) _ k all (Reads-key k h)
      (Reads-bind value _ (put_data d) s d all p q)

Reads-nil : (f : ℕ) → Reads (get_levels (suc f)) (put_u8 0) nil
unfolding put_u8
Reads-nil f = Reads-tag f 0 [] nil (unfold value_of in Reads-pure nil)

Reads-bool : (f v : ℕ) → Reads (get_levels (suc f)) (put_u8 1 ++ put_u8 v) (bool (not (v == 0)))
Reads-bool f v =
    Reads-tag f 1 (put_u8 v) _
      (unfold value_of in Reads-map get_u8 (λ b. bool (not (b == 0))) (put_u8 v) v (Reads-u8 v))

Reads-int :
    (f i : ℕ) → i < u64_mod → Reads (get_levels (suc f)) (put_u8 2 ++ put_u64 i) (LuaData.int i)
Reads-int f i h =
    Reads-tag f 2 (put_u64 i) _
      (unfold value_of in Reads-map get_u64 LuaData.int (put_u64 i) i (Reads-u64 i h))

Reads-num : (f n : ℕ) → n < u64_mod → Reads (get_levels (suc f)) (put_u8 3 ++ put_u64 n) (num n)
Reads-num f n h =
    Reads-tag f 3 (put_u64 n) _
      (unfold value_of in Reads-map get_u64 num (put_u64 n) n (Reads-u64 n h))

Reads-str :
    (f : ℕ) (s : Bytes)
    → length s < u64_mod
    → Reads (get_levels (suc f)) (put_u8 4 ++ put_bytes s) (LuaData.str s)
Reads-str f s h =
    Reads-tag f 4 (put_bytes s) _
      (unfold value_of in Reads-map get_bytes LuaData.str (put_bytes s) s (Reads-bytes s h))

Reads-no_items : (value : Read LuaData) → Reads (get_items value 0) [] done
unfolding get_items
Reads-no_items value = Reads-pure done

Reads-no_fields :
    (value : Read LuaData) (acc : Fields) → Reads (get_fields value 0 acc) [] (concat acc end)
unfolding get_fields
Reads-no_fields value acc = rw concat-end (Reads-pure acc)

mutual
  unfolding put_data

  Reads-levels :
      (d : LuaData) (f : ℕ) → levels d ≤ suc f → Fits d → Reads (get_levels (suc f)) (put_data d) d
  Reads-levels nil f l h = Reads-nil f
  Reads-levels (bool true) f l h = Reads-bool f 1
  Reads-levels (bool false) f l h = Reads-bool f 0
  Reads-levels (LuaData.int i) f l h = Reads-int f i h
  Reads-levels (num n) f l h = Reads-num f n h
  Reads-levels (LuaData.str s) f l h = Reads-str f s h
  Reads-levels (table xs fs) f l h = Reads-tag f 5 _ (table xs fs) (
      Reads-table (get_levels f) xs fs h.0 h.2 (Reads-items xs f (omega arith) h.1)
        (Reads-fields fs f end (omega arith) h.3 h.4 (AllBehind-end fs)))

  Reads-items :
      (xs : Items) (f : ℕ)
      → levels_items xs ≤ f
      → FitsItems xs
      → Reads (get_items (get_levels f) (count_items xs)) (put_items xs) xs
  Reads-items done f l h = Reads-no_items (get_levels f)
  Reads-items (item d xs) zero l h = absurd (omega (arith, levels_pos d))
  Reads-items (item d xs) (suc f) l h =
      Reads-item (get_levels (suc f)) d xs (Reads-levels d f (omega arith) h.0)
        (Reads-items xs (suc f) (omega arith) h.1)

  Reads-fields :
      (fs : Fields) (f : ℕ) (acc : Fields)
      → levels_fields fs ≤ f
      → FitsFields fs
      → IsSorted fs
      → AllKeys (Behind acc) fs
      → Reads (get_fields (get_levels f) (count_fields fs) acc) (put_fields fs) (concat acc fs)
  Reads-fields end f acc l h s b = Reads-no_fields (get_levels f) acc
  Reads-fields (field k d fs) zero acc l h s b = absurd (omega (arith, levels_pos d))
  Reads-fields (field k d fs) (suc f) acc l h s b =
      Reads-field (get_levels (suc f)) _ acc k d _ _ h.0 (Reads-levels d f (omega arith) h.1) (
        Reads-next_field (get_levels (suc f)) _ acc k d fs _ b.0 (
          Reads-fields fs (suc f) (concat acc (field k d end)) (omega arith) h.2 s.1
            (AllBehind-concat acc k d fs b.1 s.0)))

pub Reads-get_data :
    (d : LuaData) → levels d ≤ suc max_depth → Fits d → Reads get_data (put_data d) d
unfolding get_data
Reads-get_data d l h = Reads-levels d max_depth l h

-- Every value that meets `Fits` and nests no deeper than `MAX_DEPTH` below the top is read back as
-- it was, from wherever it stands in a frame of less than 2^64 bytes, and the cursor is left right
-- behind it.
pub get_data-put_data :
    (d : LuaData) (pre rest : Bytes)
    → levels d ≤ suc max_depth
    → Fits d
    → length (pre ++ (put_data d ++ rest)) < u64_mod
    → get_data (at pre (put_data d ++ rest)) ≡ ok (d, at (pre ++ put_data d) rest)
get_data-put_data d pre rest l h b = Reads-get_data d l h pre rest b
