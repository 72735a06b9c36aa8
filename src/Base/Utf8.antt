-- ===== src/Base/Utf8.antt =====
-- What the program uses of Rust's UTF-8: `String::from_utf8` accepts a byte string, and
-- `String::from_utf8_lossy` puts U+FFFD for each longest piece that begins no character. A `String`
-- is the list of its bytes.
use Prim.Native.Char.{code}
use Prim.Native.String.{String}
use oxigeon.Base.{
  ℕ, zero, suc, Bool, true, false, [], ◌∷◌, ◌++◌, append_assoc, Option, none, some, ◌≡◌, refl, ◌∙◌,
  ltb, ◌==◌, within, if◌then◌else◌, Bytes,
}

-- Between two characters, or `more` bytes into one: how many come behind the next byte, and the
-- least and greatest value of the next byte.
pub data Utf8State : Type 0 where
  ground : Utf8State
  more : ℕ → ℕ → ℕ → Utf8State

abbrev is_ground : Utf8State → Bool
is_ground ground = true
is_ground (more _ _ _) = false

-- The first byte of a character.
first : ℕ → Option Utf8State
first b =
    if ltb b 0x80
    then some ground
    else if within 0xC2 0xDF b
    then some (more 0 0x80 0xBF)
    else if b == 0xE0
    then some (more 1 0xA0 0xBF)
    else if b == 0xED
    then some (more 1 0x80 0x9F)
    else if within 0xE1 0xEF b
    then some (more 1 0x80 0xBF)
    else if b == 0xF0
    then some (more 2 0x90 0xBF)
    else if within 0xF1 0xF3 b
    then some (more 2 0x80 0xBF)
    else if b == 0xF4
    then some (more 2 0x80 0x8F)
    else none

next : Utf8State → ℕ → Option Utf8State
unfolding first
next ground b = first b
next (more zero lo hi) b = if within lo hi b then some ground else none
next (more (suc k) lo hi) b = if within lo hi b then some (more k 0x80 0xBF) else none

is_utf8_from : Utf8State → Bytes → Bool
is_utf8_from s [] = is_ground s
is_utf8_from s (b ∷ bs) = elim (next s b) [ none ↦ false | some t ↦ is_utf8_from t bs ]

-- `String::from_utf8` succeeds.
unfoldable pub is_utf8 : Bytes → Bool
unfolding is_utf8_from next first
is_utf8 = is_utf8_from ground

abbrev replacement : Bytes
replacement = 0xEF ∷ 0xBF ∷ 0xBD ∷ []

-- `held` is what was read of the character at hand.
lossy_from : Utf8State → Bytes → Bytes → Bytes
lossy_from s held [] = if is_ground s then [] else replacement
lossy_from s held (b ∷ bs) = elim (next s b) [
  | some ground ↦ held ++ b ∷ lossy_from ground [] bs
  | some (more k lo hi) ↦ lossy_from (more k lo hi) (held ++ b ∷ []) bs
  | none ↦ elim (is_ground s) [
    | true ↦ replacement ++ lossy_from ground [] bs
    | false ↦ replacement ++ elim (first b) [
      | some ground ↦ b ∷ lossy_from ground [] bs
      | some (more k lo hi) ↦ lossy_from (more k lo hi) (b ∷ []) bs
      | none ↦ replacement ++ lossy_from ground [] bs
    ]
  ]
]

-- `String::from_utf8_lossy`.
unfoldable pub from_utf8_lossy : Bytes → Bytes
unfolding lossy_from next first
from_utf8_lossy = lossy_from ground []

lossy_from-is_utf8_from :
    (s : Utf8State) (held bs : Bytes)
    → (s ≡ ground → held ≡ [])
    → is_utf8_from s bs ≡ true
    → lossy_from s held bs ≡ held ++ bs
unfolding is_utf8_from lossy_from
lossy_from-is_utf8_from ground held [] e h = rw (e refl)
lossy_from-is_utf8_from (more _ _ _) held [] e h = cc
lossy_from-is_utf8_from s held (b ∷ bs) e h =
    go (next s b) refl (lossy_from-is_utf8_from ground [] bs (λ _. refl))
      (λ k lo hi. lossy_from-is_utf8_from (more k lo hi) (held ++ b ∷ []) bs (λ q. cc))
  where
    go :
        (o : Option Utf8State)
        → next s b ≡ o
        → (is_utf8_from ground bs ≡ true → lossy_from ground [] bs ≡ bs)
        → ((k lo hi : ℕ)
            → is_utf8_from (more k lo hi) bs ≡ true
            → lossy_from (more k lo hi) (held ++ b ∷ []) bs ≡ (held ++ b ∷ []) ++ bs)
        → lossy_from s held (b ∷ bs) ≡ held ++ b ∷ bs
    go none q one rest = cc (rw (q, is_utf8_from) at h)
    go (some ground) q one rest = rw (q, lossy_from) (rw (one (rw (q, is_utf8_from) at h)))
    go (some (more k lo hi)) q one rest =
        rw (q, lossy_from)
          (rest k lo hi (rw (q, is_utf8_from) at h) ∙ append_assoc held (b ∷ []) bs)

-- Bytes that are UTF-8 come out as they are.
pub from_utf8_lossy-is_utf8 : (bs : Bytes) → is_utf8 bs ≡ true → from_utf8_lossy bs ≡ bs
unfolding is_utf8 from_utf8_lossy
from_utf8_lossy-is_utf8 bs h = lossy_from-is_utf8_from ground [] bs (λ _. refl) h

-- The bytes of an ASCII text.
abbrev pub ascii : String → Bytes
ascii String.[] = []
ascii (String.◌∷◌ c s) = code c ∷ ascii s
