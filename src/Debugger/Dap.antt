-- ===== src/Debugger/Dap.antt =====
-- src/core/scripting/debugger/dap/codec.rs: the framing of DAP messages. JSON comes from outside:
-- `from_slice` reads it, `to_vec` writes it, or they fail. A buffer is the list of its bytes, a call
-- of the decoder gives what it leaves of itself and of the buffer.
pub mod Header
pub mod RoundTrip
pub mod Pieces
use oxigeon.Base.{
  ℕ, ◌+◌, ◌*◌, List, [], ◌∷◌, ◌++◌, Option, none, some, ltb, if◌then◌else◌, Bytes, length, take,
  drop,
}
use oxigeon.Base.Utf8.{is_utf8, ascii}
use oxigeon.Debugger.Dap.Header.{header_end, find_header_end, content_length, format}

abbrev pub max_body : ℕ
max_body = 8 * 1024 * 1024

pub data Failure : Type 0 where
  not_utf8 no_content_length : Failure
  too_long : ℕ → Failure
  malformed : Failure

-- What `decode` returns: `Ok(None)`, `Ok(Some(value))` or an error.
pub data Answer (V : Type 0) : Type 0 where
  waiting : Answer V
  message : V → Answer V
  failed : Failure → Answer V

-- `need`, the buffer, and what is returned.
abbrev pub Step : Type 0 → Type 0
Step V = Option ℕ × Bytes × Answer V

module _ {V : Type 0} (from_slice : Bytes → Option V) where
  -- The turn of the loop with `need` set.
  unfoldable decode_body : ℕ → Bytes → Step V
  decode_body len src =
      if ltb (length src) len then (some len, src, waiting) else elim (from_slice (take len src)) [
        | none ↦ (none, drop len src, failed malformed)
        | some value ↦ (none, drop len src, message value)
      ]

  -- What is done of the header that ends at `end`; the loop then turns once more.
  unfoldable decode_header : ℕ → Bytes → Step V
  unfolding decode_body
  decode_header end src =
      let rest = drop (end + 4) src in
      if is_utf8 (take end src)
      then elim (content_length (take end src)) [
        | none ↦ (none, rest, failed no_content_length)
        | some len ↦
            if ltb max_body len then (none, rest, failed (too_long len)) else decode_body len rest
      ]
      else (none, src, failed not_utf8)

  unfoldable pub decode : Option ℕ → Bytes → Step V
  unfolding decode_header decode_body
  decode (some len) src = decode_body len src
  decode none src = elim (find_header_end src) [
    | none ↦ (none, src, waiting)
    | some end ↦ decode_header end src
  ]

-- A body behind its header.
unfoldable framed : Bytes → Bytes
framed body = ascii "Content-Length: " ++ (format (length body) ++ (header_end ++ body))

unfoldable pub encode : {V : Type 0} → (V → Option Bytes) → V → Bytes → Option Bytes
unfolding framed
encode to_vec item dst = elim (to_vec item) [ none ↦ none | some body ↦ some (dst ++ framed body) ]
