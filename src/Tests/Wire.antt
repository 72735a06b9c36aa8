-- ===== src/Tests/Wire.antt =====
-- Tests and witnesses for crates/oxigeon-lua/src/wire.rs.
use Prim.Native.Nat.{Ordering}
use oxigeon.Base.{◌+◌, ◌≤◌, true, [], ◌∷◌, ◌++◌, some, ◌≡◌, refl, arith, Bytes, length}
use oxigeon.Base.Utf8.{ascii, is_utf8}
use oxigeon.Wire.Cursor.{
  ok, err, bad_value_tag, put_u64, put_u8, get_u8, put_bytes, to_le_bytes, new,
}
use oxigeon.Wire.Reads.{at}
use oxigeon.Wire.Value.{
  Key, LuaData, nil, bool, table, done, item, end, field, put_data, put_key, get_data, compare_keys,
}
use oxigeon.Wire.Value.Fits.{levels}
use oxigeon.Wire.Value.RoundTrip.{get_data-put_data}
use oxigeon.Wire.Value.Bounds.{nodes, get_data_bounds}
use oxigeon.Wire.Message.{
  ToWorker, job, ToServer, finished, timeout, encode_to_worker, decode_to_worker, encode_to_server,
  decode_to_server,
}
use oxigeon.Wire.Message.RoundTrip.{decode-encode_to_worker, decode-encode_to_server}

-- `{ true, hp = 7 }`.
abbrev pair_table : LuaData
pair_table = table (item (bool true) done) (field (Key.str (ascii "hp")) (LuaData.int 7) end)

pair_bytes : length (put_data pair_table) ≡ 39
unfolding put_data put_key put_u8 put_bytes put_u64 to_le_bytes
pair_bytes = refl

negative_first : compare_keys (Key.int 0xFFFFFFFFFFFFFFFF) (Key.int 1) ≡ Ordering.lt
unfolding compare_keys
negative_first = refl

bad_tag : get_data (new (9 ∷ [])) ≡ err (bad_value_tag 9)
unfolding get_data new get_u8
bad_tag = refl

get_data-put_data_example :
    get_data (at (1 ∷ []) (put_data pair_table ++ (2 ∷ [])))
    ≡ ok (pair_table, at ((1 ∷ []) ++ put_data pair_table) (2 ∷ []))
unfolding put_data put_key put_u8 put_bytes put_u64 to_le_bytes
get_data-put_data_example =
    get_data-put_data pair_table (1 ∷ []) (2 ∷ []) (omega arith)
      (omega arith, (tt, tt), omega arith, (omega arith, omega arith, tt), (tt, tt)) (omega arith)

abbrev yes_bytes : Bytes
yes_bytes = 1 ∷ 1 ∷ []

get_data_bounds_example :
    (0 + nodes (bool true) ≤ 2) × (levels (bool true) ≤ 257) × (2 ≤ 2) × (yes_bytes ≡ yes_bytes)
unfolding get_data get_u8
get_data_bounds_example =
    get_data_bounds (at [] yes_bytes) (at yes_bytes []) (bool true) (omega arith) refl

abbrev a_job : ToWorker
a_job = job 5 (ascii "plan") (ascii "go") pair_table 250

decode-encode_to_worker_example : decode_to_worker (encode_to_worker a_job) ≡ ok a_job
unfolding encode_to_worker put_data put_u64 to_le_bytes is_utf8 put_u8 put_bytes put_key
decode-encode_to_worker_example =
    decode-encode_to_worker a_job
      (
        omega arith,
        (omega arith, refl),
        (omega arith, refl),
        (
          omega arith,
          (omega arith, (tt, tt), omega arith, (omega arith, omega arith, tt), (tt, tt)),
        ),
        omega arith,
      )
      (omega arith)

abbrev a_result : ToServer
a_result = finished 5 timeout nil (some (ascii "late")) ((ascii "warn", ascii "slow") ∷ [])

decode-encode_to_server_example : decode_to_server (encode_to_server a_result) ≡ ok a_result
unfolding encode_to_server put_data put_u64 to_le_bytes is_utf8 put_u8 put_bytes put_key
decode-encode_to_server_example =
    decode-encode_to_server a_result
      (
        omega arith,
        (omega arith, tt),
        (omega arith, refl),
        omega arith,
        ((omega arith, refl), (omega arith, refl), tt),
      )
      (omega arith)

abbrev one_byte_frame : Bytes
one_byte_frame = 1 ∷ 0 ∷ 0 ∷ 0 ∷ 7 ∷ []
