-- ===== src/Wire/Frame.antt =====
-- crates/oxigeon-lua/src/wire.rs: `write_frame` and `read_frame`.
--
-- A stream is the list of the bytes still to come, and it ends where the list ends; a failing pipe
-- is not modelled. `read_exact` fails with `UnexpectedEof` if the stream holds too few bytes.
use oxigeon.Base.{
  inl, inr, ◌-◌, ◌+◌, le_or_lt, sym, take-append_past, append-take-drop, length-take,
  length-take-le, ℕ, zero, suc, ◌*◌, ◌≤◌, ◌<◌, false, List, [], ◌∷◌, ◌++◌, Option, none, some, ◌≡◌,
  sym, ap, ◌∙◌, arith, ltb, if◌then◌else◌, Bytes, length, take, drop, length-append, take-append,
  length-take-le, drop-append, append_assoc, subst, All,
}
use oxigeon.Wire.Cursor.{to_le_bytes, from_le_bytes}
use oxigeon.Wire.Reads.{from_le_bytes-to_le_bytes, length-to_le_bytes}

abbrev pub max_frame : ℕ
max_frame = 64 * 1024 * 1024

-- The bytes that go out, or `InvalidData`.
unfoldable pub write_frame : Bytes → Option Bytes
unfolding to_le_bytes
write_frame body =
    if ltb max_frame (length body) then none else some (to_le_bytes 4 (length body) ++ body)

pub data Incoming : Type 0 where
  at_end cut_off : Incoming
  oversized : ℕ → Incoming
  frame : Bytes → Bytes → Incoming

unfoldable pub read_exact : ℕ → Bytes → Option (Bytes × Bytes)
read_exact n stream = if ltb (length stream) n then none else some (take n stream, drop n stream)

read_body : ℕ → Bytes → Incoming
unfolding read_exact
read_body len stream = elim (read_exact len stream) [
  | none ↦ cut_off
  | some (body, rest) ↦ frame body rest
]

-- `Ok(None)` is `at_end`; an error on the body is `cut_off`.
unfoldable pub read_frame : Bytes → Incoming
unfolding read_exact from_le_bytes read_body
read_frame stream = elim (read_exact 4 stream) [
  | none ↦ at_end
  | some (prefix, rest) ↦
      let len = from_le_bytes prefix in
      if ltb max_frame len then oversized len else read_body len rest
]

read_exact-append : (s rest : Bytes) → read_exact (length s) (s ++ rest) ≡ some (s, rest)
unfolding read_exact
read_exact-append s rest =
    ground (arith, length-append s rest, take-append s rest, drop-append s rest)

read_exact_prefix :
    (n : ℕ) (rest : Bytes) → read_exact 4 (to_le_bytes 4 n ++ rest) ≡ some (to_le_bytes 4 n, rest)
read_exact_prefix n rest =
    subst (λ k. read_exact k (to_le_bytes 4 n ++ rest) ≡ some (to_le_bytes 4 n, rest))
      (length-to_le_bytes 4 n) (read_exact-append (to_le_bytes 4 n) rest)

read_body-append : (body rest : Bytes) → read_body (length body) (body ++ rest) ≡ frame body rest
unfolding read_body
read_body-append body rest = rw (read_exact-append body rest, read_body)

write_frame-eq-some :
    (body : Bytes) {out : Bytes}
    → write_frame body ≡ some out
    → (length body ≤ max_frame) × (out ≡ to_le_bytes 4 (length body) ++ body)
unfolding write_frame
write_frame-eq-some body e = ground arith

read_frame_prefix :
    (n : ℕ) (rest : Bytes) → n ≤ max_frame → read_frame (to_le_bytes 4 n ++ rest) ≡ read_body n rest
unfolding read_frame
read_frame_prefix n rest h =
    rw (read_exact_prefix n rest, read_frame)
      (rw (from_le_bytes-to_le_bytes 4 n (omega arith)) (rw (not_over n h)))
  where
    not_over : (n : ℕ) → n ≤ max_frame → ltb max_frame n ≡ false
    not_over n h = ground arith

-- A frame that was written is read back, and the stream is left right behind it.
pub read_frame-write_frame :
    (body rest : Bytes) {out : Bytes}
    → write_frame body ≡ some out
    → read_frame (out ++ rest) ≡ frame body rest
read_frame-write_frame body rest {out} e =
    let (small, written) = write_frame-eq-some body e in
    subst (λ o. read_frame (o ++ rest) ≡ frame body rest) (sym written)
      (ap read_frame (append_assoc (to_le_bytes 4 (length body)) body rest)
        ∙ read_frame_prefix (length body) (body ++ rest) small
        ∙ read_body-append body rest)

read_frame_cut_prefix : (stream : Bytes) → length stream < 4 → read_frame stream ≡ at_end
unfolding read_frame
read_frame_cut_prefix stream h = ground arith

-- The frames of a stream up to its end, on fuel; `none` is any error, or fuel that ran out.
pub read_all : ℕ → Bytes → Option (List Bytes)
read_all zero stream = none
read_all (suc f) stream = elim (read_frame stream) [
  | at_end ↦ some []
  | cut_off ↦ none
  | oversized _ ↦ none
  | frame body rest ↦ elim (read_all f rest) [ none ↦ none | some bodies ↦ some (body ∷ bodies) ]
]

-- Frames written one after another.
pub write_all : List Bytes → Bytes
write_all [] = []
write_all (body ∷ bodies) =
    elim (write_frame body) [ none ↦ [] | some out ↦ out ] ++ write_all bodies

write_frame_small :
    (body : Bytes)
    → length body ≤ max_frame
    → write_frame body ≡ some (to_le_bytes 4 (length body) ++ body)
unfolding write_frame
write_frame_small body h = ground arith

-- Bodies that are not over the limit, written one after another, are read back one by one, in
-- order, and then the stream is at its end; one call more than there are frames suffices.
pub read_all-write_all :
    (bodies : List Bytes) (f : ℕ)
    → length bodies < f
    → All (λ body. length body ≤ max_frame) bodies
    → read_all f (write_all bodies) ≡ some bodies
unfolding read_all write_all
read_all-write_all [] zero l a = elim l [ ]
read_all-write_all [] (suc f) l a = rw (read_frame_cut_prefix [] (omega arith), read_all)
read_all-write_all (body ∷ bodies) zero l a = elim l [ ]
read_all-write_all (body ∷ bodies) (suc f) l a =
    let out = to_le_bytes 4 (length body) ++ body in
    let written : write_frame body ≡ some out = write_frame_small body a.0 in
    rw (written, write_all)
      (rw (read_frame-write_frame body (write_all bodies) written, read_all)
        (rw (read_all-write_all bodies f (omega arith) a.1)))

read_body-eq-frame :
    (n : ℕ) (s body rest : Bytes)
    → read_body n s ≡ frame body rest
    → (n ≤ length s) × (body ≡ take n s) × (rest ≡ drop n s)
unfolding read_body read_exact
read_body-eq-frame n s body rest e = ground arith

read_frame-eq-frame :
    (s body rest : Bytes)
    → read_frame s ≡ frame body rest
    → (from_le_bytes (take 4 s) ≤ max_frame)
      × (read_body (from_le_bytes (take 4 s)) (drop 4 s) ≡ frame body rest)
unfolding read_frame read_exact
read_frame-eq-frame s body rest e = ground arith

-- A frame that is read takes the four bytes of its length, which say how long the body is, and the
-- body, and the rest of the stream is left; the body is never over the limit.
pub read_frame_bounds :
    (stream body rest : Bytes)
    → read_frame stream ≡ frame body rest
    → (length body ≤ max_frame)
      × (from_le_bytes (take 4 stream) ≡ length body)
      × (stream ≡ take 4 stream ++ (body ++ rest))
read_frame_bounds stream body rest e =
    let (small, r) = read_frame-eq-frame stream body rest e in
    let n = from_le_bytes (take 4 stream) in
    let (enough, b, d) = read_body-eq-frame n (drop 4 stream) body rest r in
    let size : length body ≡ n = ap length b ∙ length-take n (drop 4 stream) enough in
    (
      omega arith,
      sym size,
      sym (
          ap (λ x. take 4 stream ++ x)
            (ap (λ x. x ++ rest) b
              ∙ ap (λ x. take n (drop 4 stream) ++ x) d
              ∙ append-take-drop n (drop 4 stream))
          ∙ append-take-drop 4 stream),
    )

read_body_short : (n : ℕ) (s : Bytes) → length s < n → read_body n s ≡ cut_off
unfolding read_body read_exact
read_body_short n s h = ground arith

take-prefixed :
    (n k : ℕ) (body : Bytes)
    → 4 ≤ k
    → take k (to_le_bytes 4 n ++ body) ≡ to_le_bytes 4 n ++ take (k - 4) body
take-prefixed n k body h =
    take-append_past (to_le_bytes 4 n) body k (k - 4) (omega (arith, length-to_le_bytes 4 n))

read_frame-take_prefix :
    (out : Bytes) (k : ℕ) → k < 4 → read_frame (take k out) ≡ (if ltb k 4 then at_end else cut_off)
read_frame-take_prefix out k h =
    read_frame_cut_prefix (take k out) (omega (arith, length-take-le k out)) ∙ ground arith

read_frame-take_body :
    (body : Bytes) (k : ℕ)
    → length body ≤ max_frame
    → 4 ≤ k
    → k < 4 + length body
    → read_frame (take k (to_le_bytes 4 (length body) ++ body))
      ≡ (if ltb k 4 then at_end else cut_off)
read_frame-take_body body k small h l =
    ap read_frame (take-prefixed (length body) k body h)
    ∙ read_frame_prefix (length body) (take (k - 4) body) small
    ∙ read_body_short (length body) (take (k - 4) body) (omega (arith, length-take-le (k - 4) body))
    ∙ ground arith

-- A written frame that is cut off after `k` bytes: within its body, the read fails; within its
-- length, it is taken for a stream that ended between two frames.
pub read_frame-take :
    (body : Bytes) (k : ℕ) {out : Bytes}
    → write_frame body ≡ some out
    → k < length out
    → read_frame (take k out) ≡ (if ltb k 4 then at_end else cut_off)
read_frame-take body k {out} e l =
    let (small, written) = write_frame-eq-some body e in
    let size : length out ≡ 4 + length body =
      ap length written
      ∙ omega (
        arith,
        length-append (to_le_bytes 4 (length body)) body,
        length-to_le_bytes 4 (length body),
      ) in
    elim (le_or_lt 4 k) [
      | inr short ↦ read_frame-take_prefix out k short
      | inl long ↦
          subst (λ o. read_frame (take k o) ≡ (if ltb k 4 then at_end else cut_off)) (sym written)
            (read_frame-take_body body k small long (omega arith))
    ]
