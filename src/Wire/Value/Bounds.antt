-- ===== src/Wire/Value/Bounds.antt =====
-- What a decoded value can be, whatever bytes arrive.
use Prim.Native.Nat.{max, Ordering}
use oxigeon.Base.{ℕ, zero, suc, ◌+◌, ◌≤◌, not, ◌==◌, ◌≡◌, refl, arith, length}
use oxigeon.Wire.Cursor.{ok, Cur, Read, get_u8, get_u64, get_bytes}
use oxigeon.Wire.Ensures.{
  Ensures, Ensures-pure, Ensures-bind, Ensures-u8, Ensures-u64, Ensures-bytes, Ensures-map,
  Ensures-weaken, Ensures-if, Ensures-fail,
}
use oxigeon.Wire.Value.{
  Key, LuaData, nil, bool, num, table, Items, done, item, Fields, end, field, insert, compare_keys,
  get_key, get_items, get_fields, value_of, get_levels, get_data, max_depth,
}
use oxigeon.Wire.Value.Fits.{levels, levels_items, levels_fields}

-- How many values a value is made of, itself included.
abbrev mutual
  pub nodes : LuaData → ℕ
  nodes (table xs fs) = suc (nodes_items xs + nodes_fields fs)
  nodes _ = 1

  pub nodes_items : Items → ℕ
  nodes_items done = 0
  nodes_items (item d xs) = nodes d + nodes_items xs

  pub nodes_fields : Fields → ℕ
  nodes_fields end = 0
  nodes_fields (field _ d fs) = nodes d + nodes_fields fs

insert_bounds :
    (k : Key) (d : LuaData) (fs : Fields)
    → (nodes_fields (insert k d fs) ≤ nodes d + nodes_fields fs)
      × (levels_fields (insert k d fs) ≤ max (levels d) (levels_fields fs))
unfolding insert
insert_bounds k d end = omega arith
insert_bounds k d (field j e fs) = go (compare_keys k j) refl (insert_bounds k d fs)
  where
    go :
        (o : Ordering)
        → compare_keys k j ≡ o
        → (nodes_fields (insert k d fs) ≤ nodes d + nodes_fields fs)
          × (levels_fields (insert k d fs) ≤ max (levels d) (levels_fields fs))
        → (nodes_fields (insert k d (field j e fs)) ≤ nodes d + nodes_fields (field j e fs))
          × (levels_fields (insert k d (field j e fs))
              ≤ max (levels d) (levels_fields (field j e fs)))
    go Ordering.lt q ih = rw (q, insert) (omega arith, omega arith)
    go Ordering.eq q ih = rw (q, insert) (omega arith, omega arith)
    go Ordering.gt q ih = rw (q, insert) (omega arith, omega arith)

-- No more values than bytes, and no more levels than `f`.
abbrev Small : ℕ → LuaData → ℕ → Type 0
Small f d k = (nodes d ≤ k) × (levels d ≤ f)

abbrev Anything : {A : Type 0} → A → ℕ → Type 0
Anything _ _ = Unit

Ensures-key : Ensures get_key Anything
unfolding get_key
Ensures-key =
    Ensures-bind get_u8 _ (λ v k. k ≡ 1) Anything Ensures-u8
      (λ tag k h.
        Ensures-if (tag == 2) _ _ Anything
          (Ensures-map get_u64 Key.int (λ v k. k ≡ 8) Anything Ensures-u64 (λ _ _ _. tt))
          (Ensures-if (tag == 4) _ _ Anything
            (Ensures-map get_bytes Key.str Anything Anything Ensures-bytes (λ _ _ _. tt))
            (Ensures-fail _ Anything)))

abbrev SmallItems : ℕ → Items → ℕ → Type 0
SmallItems f xs k = (nodes_items xs ≤ k) × (levels_items xs ≤ f)

-- The fields that were there count `start` values.
abbrev SmallFields : ℕ → ℕ → Fields → ℕ → Type 0
SmallFields f start fs k = (nodes_fields fs ≤ start + k) × (levels_fields fs ≤ f)

-- Behind its tag, a value is no larger than what is read of it and the tag.
abbrev After : ℕ → LuaData → ℕ → Type 0
After f d k = Small (suc f) d (suc k)

module _ (f : ℕ) (value : Read LuaData) (small : Ensures value (Small f)) where
  Ensures-items : (n : ℕ) → Ensures (get_items value n) (SmallItems f)
  unfolding get_items
  Ensures-items zero = Ensures-pure done (SmallItems f) (omega arith, omega arith)
  Ensures-items (suc n) = Ensures-bind value _ (Small f) (SmallItems f) small (λ d k h.
      Ensures-map (get_items value n) (item d) (SmallItems f) (λ xs j. (SmallItems f) xs (k + j))
        (Ensures-items n) (λ xs j h'. (omega arith, omega arith)))

  Ensures-fields :
      (n : ℕ) (acc : Fields)
      → levels_fields acc ≤ f
      → Ensures (get_fields value n acc) (SmallFields f (nodes_fields acc))
  unfolding get_fields
  Ensures-fields zero acc h = Ensures-pure acc (SmallFields f (nodes_fields acc)) (omega arith, h)
  Ensures-fields (suc n) acc h =
      Ensures-bind get_key _ Anything (SmallFields f (nodes_fields acc)) Ensures-key (λ key k₁ _.
        Ensures-bind value _ (Small f) (λ fs k. SmallFields f (nodes_fields acc) fs (k₁ + k)) small
          (λ d k₂ h₂.
            Ensures-weaken (get_fields value n (insert key d acc))
              (SmallFields f (nodes_fields (insert key d acc)))
              (λ fs k. SmallFields f (nodes_fields acc) fs (k₁ + (k₂ + k)))
              (Ensures-fields n (insert key d acc) (omega (arith, insert_bounds key d acc)))
              (λ fs k₃ h₃. (omega (arith, insert_bounds key d acc), omega arith))))

module _ (f : ℕ) (value : Read LuaData) (small : Ensures value (Small f)) where
  Ensures-table : Ensures (value_of value 5) (After f)
  unfolding value_of
  Ensures-table =
      Ensures-bind get_u64 _ (λ v k. k ≡ 8) (After f) Ensures-u64
        (λ n k₁ _.
          Ensures-bind (get_items value n) _ (SmallItems f) (λ d k. After f d (k₁ + k))
            (Ensures-items f value small n)
            (λ xs k₂ h₂.
              Ensures-bind get_u64 _ (λ v k. k ≡ 8) (λ d k. After f d (k₁ + (k₂ + k))) Ensures-u64
                (λ m k₃ _.
                  Ensures-map (get_fields value m end) (table xs) (SmallFields f 0)
                    (λ d k. After f d (k₁ + (k₂ + (k₃ + k))))
                    (Ensures-fields f value small m end (omega arith))
                    (λ fs k₄ h₄. (omega arith, omega arith)))))

  Ensures-value_of : (tag : ℕ) → Ensures (value_of value tag) (After f)
  unfolding value_of
  Ensures-value_of tag =
      Ensures-if (tag == 0) _ _ (After f) (Ensures-pure nil (After f) (omega arith, omega arith)) (
        Ensures-if (tag == 1) _ _ (After f)
          (Ensures-map get_u8 (λ b. bool (not (b == 0))) (λ v k. k ≡ 1) (After f) Ensures-u8
            (λ _ _ _. (omega arith, omega arith)))
          (Ensures-if (tag == 2) _ _ (After f)
            (Ensures-map get_u64 LuaData.int (λ v k. k ≡ 8) (After f) Ensures-u64
              (λ _ _ _. (omega arith, omega arith)))
            (Ensures-if (tag == 3) _ _ (After f)
              (Ensures-map get_u64 num (λ v k. k ≡ 8) (After f) Ensures-u64
                (λ _ _ _. (omega arith, omega arith)))
              (Ensures-if (tag == 4) _ _ (After f)
                (Ensures-map get_bytes LuaData.str Anything (After f) Ensures-bytes
                  (λ _ _ _. (omega arith, omega arith)))
                (Ensures-if (tag == 5) _ _ (After f) Ensures-table (Ensures-fail _ (After f)))))))

Ensures-get_levels : (f : ℕ) → Ensures (get_levels f) (Small f)
unfolding get_levels
Ensures-get_levels zero = Ensures-fail _ (Small zero)
Ensures-get_levels (suc f) =
    Ensures-bind get_u8 (value_of (get_levels f)) (λ v k. k ≡ 1) (Small (suc f)) Ensures-u8
      (λ tag k h.
        Ensures-weaken (value_of (get_levels f) tag) (After f) (λ d j. Small (suc f) d (k + j))
          (Ensures-value_of f (get_levels f) (Ensures-get_levels f) tag)
          (λ d j s. (omega arith, s.1)))

-- Whatever bytes arrive: a value that is decoded from them is made of no more values than the bytes
-- it took, nests no deeper than `MAX_DEPTH` below the top, and the cursor stays inside the frame.
pub get_data_bounds :
    (c c' : Cur) (d : LuaData)
    → c.i ≤ length c.b
    → get_data c ≡ ok (d, c')
    → (c.i + nodes d ≤ c'.i) × (levels d ≤ suc max_depth) × (c'.i ≤ length c.b) × (c'.b ≡ c.b)
unfolding get_data
get_data_bounds c c' d h e =
    let r = Ensures-get_levels (suc max_depth) c c' d e in (omega arith, r.3.1, r.2 h, r.0)
