-- ===== src/Base/Keyed.antt =====
-- A `HashMap` with keys of 64 bits, as the list of its entries: the order stands for the one,
-- unspecified, in which the map is walked.
use oxigeon.Base.Tests.{◌==◌, if◌then◌else◌}
use oxigeon.Base.Lists.{length}
use Prim.Native.Nat.{ℕ, suc, ◌+◌, ◌≤◌}
use mathlib.Core.Path.{◌≡◌, refl, ap}
use mathlib.Core.Bool.{false}
use mathlib.Core.Option.{Option, none, some}
use mathlib.Core.List.{List, [], ◌∷◌}
use native.Mathlib.Omega.{arith}

module _ {V : Type 0} where
  abbrev pub find : ℕ → List (ℕ × V) → Option V
  find key [] = none
  find key ((k, v) ∷ rest) = if k == key then some v else find key rest

  abbrev pub remove : ℕ → List (ℕ × V) → List (ℕ × V)
  remove key [] = []
  remove key ((k, v) ∷ rest) =
      let left = remove key rest in if k == key then left else (k, v) ∷ left

  abbrev pub modify : ℕ → (V → V) → List (ℕ × V) → List (ℕ × V)
  modify key f [] = []
  modify key f ((k, v) ∷ rest) = (k, (if k == key then f v else v)) ∷ modify key f rest

  -- How many entries have the key.
  abbrev pub holds : ℕ → List (ℕ × V) → ℕ
  holds key [] = 0
  holds key ((k, v) ∷ rest) = (if k == key then 1 else 0) + holds key rest

  pub holds-modify :
      (key other : ℕ) (f : V → V) (m : List (ℕ × V)) → holds key (modify other f m) ≡ holds key m
  holds-modify key other f [] = refl
  holds-modify key other f (x ∷ m) =
      ap (λ n. (if x.0 == key then 1 else 0) + n) (holds-modify key other f m)

  pub length-modify :
      (other : ℕ) (f : V → V) (m : List (ℕ × V)) → length (modify other f m) ≡ length m
  length-modify other f [] = refl
  length-modify other f (x ∷ m) = ap suc (length-modify other f m)

  pub holds-remove_self : (key : ℕ) (m : List (ℕ × V)) → holds key (remove key m) ≡ 0
  holds-remove_self key [] = refl
  holds-remove_self key ((k, v) ∷ m) = ground (arith, holds-remove_self key m)

  pub holds-remove-other :
      (key other : ℕ) (m : List (ℕ × V))
      → (other == key) ≡ false
      → holds key (remove other m) ≡ holds key m
  holds-remove-other key other [] h = refl
  holds-remove-other key other ((k, v) ∷ m) h = ground (arith, holds-remove-other key other m h)

  pub find-none : (key : ℕ) (m : List (ℕ × V)) → find key m ≡ none → holds key m ≡ 0
  find-none key [] h = refl
  find-none key ((k, v) ∷ m) h = ground (arith, find-none key m)

  pub find-some : (key : ℕ) (m : List (ℕ × V)) (v : V) → find key m ≡ some v → 1 ≤ holds key m
  find-some key [] v h = ground arith
  find-some key ((k, w) ∷ m) v h = ground (arith, find-some key m v)

  pub length-remove : (key : ℕ) (m : List (ℕ × V)) → length (remove key m) + holds key m ≡ length m
  length-remove key [] = refl
  length-remove key ((k, v) ∷ m) = ground (arith, length-remove key m)

  pub remove-none : (key : ℕ) (m : List (ℕ × V)) → find key m ≡ none → remove key m ≡ m
  remove-none key [] h = refl
  remove-none key ((k, v) ∷ m) h = ground (arith, remove-none key m)
