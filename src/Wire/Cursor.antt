-- ===== src/Wire/Cursor.antt =====
-- crates/oxigeon-lua/src/wire.rs: the encoding primitives, and the cursor that reads them back.
--
-- A `u64`, a `usize` and the bits of an `f64` are numbers below 2^64; an `i64` is its
-- two's-complement bit pattern, which is what `to_le_bytes` writes. A read is a function of the
-- cursor to the value and the cursor it leaves. `DecodeError` names the message it carries.
use oxigeon.Base.{
  ℕ, zero, suc, ◌+◌, ◌*◌, ◌/◌, ◌%◌, ◌^◌, [], ◌∷◌, ◌++◌, ltb, leb, if◌then◌else◌, Bytes, length,
  take, drop,
}
use oxigeon.Base.Utf8.{is_utf8}

pub data DecodeError : Type 0 where
  length_overflow not_utf8 too_deep : DecodeError
  wanted : ℕ → ℕ → ℕ → DecodeError
  bad_key_tag bad_value_tag bad_server_tag bad_ending bad_worker_tag : ℕ → DecodeError

pub data Decoded {ℓ} (A : Type ℓ) : Type ℓ where
  ok : A → Decoded A
  err : DecodeError → Decoded A

pub record Cur : Type 0 where
  pub b : Bytes
  pub i : ℕ

abbrev pub Read : Type 0 → Type 0
Read A = Cur → Decoded (A × Cur)

abbrev pub pure : {A : Type 0} → A → Read A
pure a c = ok (a, c)

abbrev pub fail : {A : Type 0} → DecodeError → Read A
fail e c = err e

infixl 5 ◌>>=◌
abbrev pub ◌>>=◌ : {A B : Type 0} → Read A → (A → Read B) → Read B
◌>>=◌ m f c = elim (m c) [ ok (a, c') ↦ f a c' | err e ↦ err e ]

abbrev pub u64_mod : ℕ
u64_mod = 2 ^ 64

-- `to_le_bytes` at a width in bytes, and `from_le_bytes`.
unfoldable pub to_le_bytes : ℕ → ℕ → Bytes
to_le_bytes zero n = []
to_le_bytes (suc w) n = n % 256 ∷ to_le_bytes w (n / 256)

unfoldable pub from_le_bytes : Bytes → ℕ
from_le_bytes [] = 0
from_le_bytes (b ∷ bs) = b + 256 * from_le_bytes bs

unfoldable pub put_u8 : ℕ → Bytes
put_u8 v = v ∷ []

unfoldable pub put_u64 : ℕ → Bytes
unfolding to_le_bytes
put_u64 v = to_le_bytes 8 v

unfoldable pub put_bytes : Bytes → Bytes
unfolding put_u64
put_bytes v = put_u64 (length v) ++ v

unfoldable pub new : Bytes → Cur
new bytes = record { b = bytes; i = 0 }

-- `Cur::take`.
unfoldable pub take_from : ℕ → Read Bytes
take_from n c =
    if leb u64_mod (c.i + n)
    then err length_overflow
    else if ltb (length c.b) (c.i + n)
    then err (wanted n c.i (length c.b))
    else ok (take n (drop c.i c.b), record c { i = c.i + n })

head_of : Bytes → ℕ
head_of [] = 0
head_of (b ∷ _) = b

unfoldable pub get_u8 : Read ℕ
unfolding take_from head_of
get_u8 = do s ← take_from 1; pure (head_of s)

unfoldable pub get_u64 : Read ℕ
unfolding take_from from_le_bytes
get_u64 = do s ← take_from 8; pure (from_le_bytes s)

unfoldable pub get_bytes : Read Bytes
unfolding get_u64 take_from
get_bytes = do n ← get_u64; take_from n

utf8_or_fail : Bytes → Read Bytes
unfolding is_utf8
utf8_or_fail b = if is_utf8 b then pure b else fail not_utf8

unfoldable pub get_string : Read Bytes
unfolding get_bytes utf8_or_fail
get_string = do b ← get_bytes; utf8_or_fail b
