-- ===== src/Auth/StrikeMap.antt =====
-- src/core/auth.rs: the map of strikes.
use oxigeon.Base.{
  ℕ, true, false, List, [], ◌∷◌, none, some, ◌==◌, ◌≡◌, refl, arith, Bool-cases, inl, inr,
}
use oxigeon.Base.Keyed.{find, remove}
use oxigeon.Auth.{Strikes, insert}

pub find-remove_other :
    (key other : ℕ) (m : List (ℕ × Strikes))
    → (other == key) ≡ false
    → find key (remove other m) ≡ find key m
find-remove_other key other [] h = refl
find-remove_other key other ((k, v) ∷ m) h = elim (Bool-cases (k == other)) [
  | inl e ↦
      let n : ((k == key) ≡ false) = ground arith in rw (e, n) (find-remove_other key other m h)
  | inr e ↦ elim (Bool-cases (k == key)) [
    | inl f ↦ rw (e, f)
    | inr f ↦ rw (e, f) (find-remove_other key other m h)
  ]
]

pub find-remove : (key : ℕ) (m : List (ℕ × Strikes)) → find key (remove key m) ≡ none
find-remove key [] = refl
find-remove key ((k, v) ∷ m) = elim (Bool-cases (k == key)) [
  | inl e ↦ rw e (find-remove key m)
  | inr e ↦ rw (e, e) (find-remove key m)
]

pub find-insert_other :
    (key other : ℕ) (s : Strikes) (m : List (ℕ × Strikes))
    → (other == key) ≡ false
    → find key (insert other s m) ≡ find key m
find-insert_other key other s m h = rw h (find-remove_other key other m h)

same_key : (n : ℕ) → (n == n) ≡ true
same_key n = ground arith

pub find-insert_at :
    (key other : ℕ) (s : Strikes) (m : List (ℕ × Strikes))
    → (other == key) ≡ true
    → find key (insert other s m) ≡ some s
find-insert_at key other s m h = rw h

pub find-insert :
    (key : ℕ) (s : Strikes) (m : List (ℕ × Strikes)) → find key (insert key s m) ≡ some s
find-insert key s m = rw (same_key key)
