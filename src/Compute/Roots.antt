-- ===== src/Compute/Roots.antt =====
-- src/core/compute/mod.rs: which modules may be the entry of a computation.
pub mod Segments
use oxigeon.Base.{
  ℕ, Bool, true, false, ◌&&◌, ◌||◌, List, [], ◌∷◌, ◌++◌, Bytes, is_prefix, ◌==◌, if◌then◌else◌, map,
}
use oxigeon.Telnet.Mxp.State.{equals}

abbrev separator : Bytes
separator = b'/' ∷ []

abbrev slash : ℕ → ℕ
slash c = if (c == b'\\') || (c == b'.') then b'/' else c

unfoldable pub normalized : Bytes → Bytes
normalized = map slash

abbrev pub trim_start : Bytes → Bytes
trim_start [] = []
trim_start (c ∷ cs) = let rest = trim_start cs in if c == b'/' then rest else c ∷ cs

abbrev is_empty : Bytes → Bool
is_empty [] = true
is_empty (_ ∷ _) = false

abbrev pub trim_end : Bytes → Bytes
trim_end [] = []
trim_end (c ∷ cs) = let rest = trim_end cs in if (c == b'/') && is_empty rest then [] else c ∷ rest

-- `trim_matches('/')`.
unfoldable pub trimmed : Bytes → Bytes
trimmed root = trim_end (trim_start root)

abbrev pub any_of {ℓ} : {A : Type ℓ} → (A → Bool) → List A → Bool
any_of p [] = false
any_of p (x ∷ xs) = p x || any_of p xs

unfoldable pub is_under : Bytes → Bytes → Bool
is_under name root = equals name root || is_prefix (root ++ separator) name

unfoldable pub module_is_allowed : List Bytes → Bytes → Bool
unfolding normalized trimmed is_under
module_is_allowed roots module_name =
    any_of (λ root. is_under (normalized module_name) (trimmed root)) roots
