-- ===== src/Debugger/Paths.antt =====
-- src/core/scripting/debugger/paths.rs: paths as keys. A text is the list of the codes of
-- its characters; `fold` is
-- what Windows does to letters, and the identity elsewhere. What a file system says of a path is
-- left out.
use oxigeon.Base.{
  ℕ, ◌||◌, List, [], ◌∷◌, ◌++◌, Option, none, some, ◌==◌, if◌then◌else◌, Bytes, is_prefix, drop,
  map, ◌≡◌, arith, refl, sym, ap,
}
use oxigeon.Base.Utf8.{ascii}

abbrev to_slash : ℕ → ℕ
to_slash c = if c == b'\\' then b'/' else c

unfoldable strip_verbatim : Bytes → Bytes
strip_verbatim s = if is_prefix (ascii "//?/") s then drop 4 s else s

unfoldable normalize : (Bytes → Bytes) → Bytes → Bytes
unfolding strip_verbatim
normalize fold raw = fold (strip_verbatim (map to_slash raw))

abbrev without_at : Bytes → Option Bytes
without_at [] = none
without_at (c ∷ cs) = if c == b'@' then some cs else none

unfoldable display_path : Bytes → Option Bytes
unfolding strip_verbatim
display_path chunk = elim (without_at chunk) [
  | none ↦ none
  | some s ↦ some (strip_verbatim (map to_slash s))
]

unfoldable pub chunk_key : (Bytes → Bytes) → Bytes → Option Bytes
unfolding normalize
chunk_key fold chunk = elim (without_at chunk) [ none ↦ none | some s ↦ some (normalize fold s) ]

abbrev onto_first : ℕ → List Bytes → List Bytes
onto_first c [] = (c ∷ []) ∷ []
onto_first c (s ∷ ss) = (c ∷ s) ∷ ss

-- The parts between separators of either kind.
abbrev parts : Bytes → List Bytes
parts [] = [] ∷ []
parts (c ∷ cs) =
    let rest = parts cs in if (c == b'/') || (c == b'\\') then [] ∷ rest else onto_first c rest

-- The last two parts.
abbrev tail_of : List Bytes → Bytes
tail_of [] = []
tail_of (a ∷ []) = a
tail_of (a ∷ b ∷ []) = a ++ (b'/' ∷ b)
tail_of (a ∷ b ∷ c ∷ rest) = tail_of (b ∷ c ∷ rest)

unfoldable pub short : Bytes → Bytes
short raw = elim (without_at raw) [ none ↦ tail_of (parts raw) | some s ↦ tail_of (parts s) ]

to_slash_twice : (s : Bytes) → map to_slash (map to_slash s) ≡ map to_slash s
to_slash_twice [] = refl
to_slash_twice (c ∷ cs) = ground (arith, to_slash_twice cs)

-- A file whose path has no verbatim prefix of its own is found by the same key, be its path written
-- with backslashes or slashes, and with the verbatim prefix of Windows or without.
chunk_key-normalize :
    (fold : Bytes → Bytes) (path : Bytes)
    → strip_verbatim (map to_slash path) ≡ map to_slash path
    → (chunk_key fold (b'@' ∷ path) ≡ some (normalize fold path))
      × (chunk_key fold (b'@' ∷ map to_slash path) ≡ some (normalize fold path))
      × (normalize fold (ascii "\\\\?\\" ++ path) ≡ normalize fold path)
unfolding chunk_key normalize strip_verbatim
chunk_key-normalize fold path h = (refl, rw (to_slash_twice path), ap fold (sym h))
