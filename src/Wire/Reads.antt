-- ===== src/Wire/Reads.antt =====
-- A read that takes exactly some bytes, wherever they stand in the frame, and how such reads are
-- put together.
use native.Mathlib.Nat.{pow-suc}
use oxigeon.Base.{
  ℕ, zero, suc, ◌+◌, ◌/◌, ◌^◌, ◌<◌, true, [], ◌∷◌, ◌++◌, Bytes, length, ◌≡◌, refl, arith,
  length-append, take-append, drop-append, append_assoc, append-nil, sym, ap, ◌∙◌, subst,
}
use oxigeon.Base.Utf8.{is_utf8}
use oxigeon.Wire.Cursor.{
  ok, Cur, Read, pure, ◌>>=◌, u64_mod, to_le_bytes, from_le_bytes, put_u8, put_u64, put_bytes,
  take_from, get_u8, get_u64, get_bytes, get_string,
}

-- The cursor behind `pre`, before `rest`.
abbrev pub at : Bytes → Bytes → Cur
at pre rest = record { b = pre ++ rest; i = length pre }

-- `m` reads the bytes `s` as `a`, in any frame of less than 2^64 bytes.
abbrev pub Reads : {A : Type 0} → Read A → Bytes → A → Type 0
Reads m s a =
    (pre rest : Bytes)
    → length (pre ++ (s ++ rest)) < u64_mod
    → m (at pre (s ++ rest)) ≡ ok (a, at (pre ++ s) rest)

at-append :
    (pre s rest : Bytes)
    → at (pre ++ s) rest ≡ record { b = pre ++ (s ++ rest); i = length pre + length s }
at-append pre s rest = rw (append_assoc, length-append)

pub Reads-pure : {A : Type 0} (a : A) → Reads (pure a) [] a
Reads-pure a pre rest h = rw append-nil

pub Reads-bind :
    {A B : Type 0} (m : Read A) (f : A → Read B) (s t : Bytes) (a : A) (b : B)
    → Reads m s a
    → Reads (f a) t b
    → Reads (m >>= f) (s ++ t) b
Reads-bind m f s t a b p q pre rest h =
    let h' : length (pre ++ (s ++ (t ++ rest))) < u64_mod = rw (append_assoc s t rest) at h in
    let h'' : length ((pre ++ s) ++ (t ++ rest)) < u64_mod =
      subst (λ x. length x < u64_mod) (sym (append_assoc pre s (t ++ rest))) h' in
    let then_b : (m >>= f) (at pre (s ++ (t ++ rest))) ≡ f a (at (pre ++ s) (t ++ rest)) =
      rw (p pre (t ++ rest) h', ◌>>=◌) in
    ap (λ x. (m >>= f) (at pre x)) (append_assoc s t rest)
    ∙ then_b
    ∙ q (pre ++ s) rest h''
    ∙ ap (λ x. ok (b, at x rest)) (append_assoc pre s t)

-- A read whose value is then only wrapped.
pub Reads-map :
    {A B : Type 0} (m : Read A) (f : A → B) (s : Bytes) (a : A)
    → Reads m s a
    → Reads (m >>= λ x. pure (f x)) s (f a)
Reads-map m f s a p pre rest h = rw (p pre rest h, ◌>>=◌)

pub Reads-take_from : (s : Bytes) → Reads (take_from (length s)) s s
unfolding take_from
Reads-take_from s pre rest h = rw (at-append pre s rest) (
    ground (
      arith,
      length-append pre (s ++ rest),
      length-append s rest,
      drop-append pre (s ++ rest),
      take-append s rest,
    ))

pub from_le_bytes-to_le_bytes : (w n : ℕ) → n < 256 ^ w → from_le_bytes (to_le_bytes w n) ≡ n
unfolding from_le_bytes to_le_bytes
from_le_bytes-to_le_bytes zero n h = omega arith
from_le_bytes-to_le_bytes (suc w) n h =
    omega (arith, from_le_bytes-to_le_bytes w (n / 256) (omega (arith, pow-suc 256 w)))

pub length-to_le_bytes : (w n : ℕ) → length (to_le_bytes w n) ≡ w
unfolding to_le_bytes
length-to_le_bytes zero n = refl
length-to_le_bytes (suc w) n = ap suc (length-to_le_bytes w (n / 256))

pub Reads-u8 : (v : ℕ) → Reads get_u8 (put_u8 v) v
unfolding get_u8 put_u8
Reads-u8 v pre rest h = rw (Reads-take_from (v ∷ []) pre rest h, ◌>>=◌)

Reads-le_bytes :
    (w v : ℕ)
    → v < 256 ^ w
    → Reads (take_from w >>= λ s. pure (from_le_bytes s)) (to_le_bytes w v) v
Reads-le_bytes w v k pre rest h =
    let taken : take_from w (at pre (to_le_bytes w v ++ rest))
        ≡ ok (to_le_bytes w v, at (pre ++ to_le_bytes w v) rest) =
      subst
        (λ n.
          take_from n (at pre (to_le_bytes w v ++ rest))
          ≡ ok (to_le_bytes w v, at (pre ++ to_le_bytes w v) rest))
        (length-to_le_bytes w v) (Reads-take_from (to_le_bytes w v) pre rest h) in
    rw (taken, ◌>>=◌, from_le_bytes-to_le_bytes w v k)

-- Every number below 2^64 is read back.
pub Reads-u64 : (v : ℕ) → v < u64_mod → Reads get_u64 (put_u64 v) v
unfolding get_u64 put_u64
Reads-u64 v k = Reads-le_bytes 8 v k

pub Reads-bytes : (v : Bytes) → length v < u64_mod → Reads get_bytes (put_bytes v) v
unfolding get_bytes put_bytes
Reads-bytes v k =
    Reads-bind get_u64 take_from (put_u64 (length v)) v (length v) v (Reads-u64 (length v) k)
      (Reads-take_from v)

pub Reads-string :
    (v : Bytes) → length v < u64_mod → is_utf8 v ≡ true → Reads get_string (put_bytes v) v
unfolding get_string
Reads-string v k u pre rest h = rw (Reads-bytes v k pre rest h, ◌>>=◌, u)
