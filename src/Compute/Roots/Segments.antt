-- ===== src/Compute/Roots/Segments.antt =====
-- src/core/compute/mod.rs: what the roots mean, in terms of the parts of a path between slashes.
use oxigeon.Base.{
  ℕ, Bool, true, false, ◌&&◌, ◌||◌, List, [], ◌∷◌, Bytes, ◌==◌, if◌then◌else◌, ◌≡◌, refl, ap, ◌∙◌,
  inl, inr, arith, Bool-cases,
}
use oxigeon.Telnet.Mxp.State.{equals}
use oxigeon.Compute.Roots.{normalized, trimmed, any_of, is_under, module_is_allowed}

abbrev pub onto_first : ℕ → List Bytes → List Bytes
onto_first c [] = (c ∷ []) ∷ []
onto_first c (s ∷ ss) = (c ∷ s) ∷ ss

-- The parts between the slashes.
abbrev pub segments : Bytes → List Bytes
segments [] = [] ∷ []
segments (c ∷ cs) = let rest = segments cs in if c == b'/' then [] ∷ rest else onto_first c rest

abbrev pub starts_with : List Bytes → List Bytes → Bool
starts_with [] name = true
starts_with (r ∷ rs) [] = false
starts_with (r ∷ rs) (n ∷ ns) = equals r n && starts_with rs ns

-- What the code looks for, a prefix and then a slash or the end, one byte after another.
abbrev under : Bytes → Bytes → Bool
under [] [] = true
under [] (x ∷ xs) = x == b'/'
under (c ∷ cs) [] = false
under (c ∷ cs) (x ∷ xs) = (c == x) && under cs xs

is_under-under : (name root : Bytes) → is_under name root ≡ under root name
unfolding is_under
is_under-under [] [] = refl
is_under-under (x ∷ xs) [] = ground arith
is_under-under [] (c ∷ cs) = refl
is_under-under (x ∷ xs) (c ∷ cs) = ground (arith, is_under-under xs cs)

segments-some : (t : Bytes) → (s : Bytes) × (ss : List Bytes) × (segments t ≡ s ∷ ss)
segments-some [] = ([], [], refl)
segments-some (c ∷ cs) = elim (Bool-cases (c == b'/')) [
  | inl e ↦ ([], segments cs, rw e)
  | inr e ↦ let (s, ss, q) = segments-some cs in (c ∷ s, ss, rw (e, q))
]

under-starts_with :
    (root name : Bytes) → under root name ≡ starts_with (segments root) (segments name)
under-starts_with [] [] = refl
under-starts_with [] (x ∷ xs) =
    let (s, ss, q) = segments-some xs in
    elim (Bool-cases (x == b'/')) [ inl e ↦ rw e | inr e ↦ rw (e, q) ]
under-starts_with (c ∷ cs) [] =
    let (s, ss, q) = segments-some cs in
    elim (Bool-cases (c == b'/')) [ inl e ↦ rw (e, q) | inr e ↦ rw (e, q) ]
under-starts_with (c ∷ cs) (x ∷ xs) =
    let (s, ss, q) = segments-some cs in
    let (t, ts, r) = segments-some xs in
    let rest = under-starts_with cs xs in
    elim (Bool-cases (c == b'/')) [
      | inl e ↦ elim (Bool-cases (x == b'/')) [
        | inl f ↦ rw (e, f) (ground (arith, rest))
        | inr f ↦ rw (e, f, r) (ground arith)
      ]
      | inr e ↦ elim (Bool-cases (x == b'/')) [
        | inl f ↦ rw (e, f, q) (ground arith)
        | inr f ↦ rw (e, f, q, r) (ground (arith, rw (q, r) at rest))
      ]
    ]

-- A module may be an entry exactly when, after its dots and backslashes are made slashes, the parts
-- of some root, slashes at its ends aside, are the first of its parts, one by one: a root `compute`
-- admits no `computed`.
pub module_is_allowed-segments :
    (roots : List Bytes) (module_name : Bytes)
    → module_is_allowed roots module_name
      ≡ any_of
          (λ root. starts_with (segments (trimmed root)) (segments (normalized module_name)))
          roots
unfolding module_is_allowed
module_is_allowed-segments [] module_name = refl
module_is_allowed-segments (root ∷ roots) module_name =
    rw
      (is_under-under (normalized module_name) (trimmed root)
        ∙ under-starts_with (trimmed root) (normalized module_name))
      (ap (λ b. starts_with (segments (trimmed root)) (segments (normalized module_name)) || b)
        (module_is_allowed-segments roots module_name))
