-- ===== src/Wire/Ensures.antt =====
-- What holds of whatever a read of the cursor returns, and how such facts are put together.
use oxigeon.Base.{
  ℕ, ◌+◌, ◌-◌, ◌≤◌, Bool, true, false, ◌≡◌, refl, sym, ap, ◌∙◌, subst, arith, length, if◌then◌else◌,
}
use oxigeon.Wire.Cursor.{
  DecodeError, Decoded, ok, err, Cur, Read, pure, fail, ◌>>=◌, take_from, get_u8, get_u64,
  get_bytes,
}

-- What holds of a value that a read returns, and of the number of bytes it took.
abbrev pub Ensures : {A : Type 0} → Read A → (A → ℕ → Type 0) → Type 0
Ensures {A} m Q =
    (c c' : Cur) (a : A)
    → m c ≡ ok (a, c')
    → (c'.b ≡ c.b) × (c.i ≤ c'.i) × (c.i ≤ length c.b → c'.i ≤ length c.b) × Q a (c'.i - c.i)

pub ok_parts :
    {A : Type 0} {a b : A} {c d : Cur}
    → ◌≡◌ {A = Decoded (A × Cur)} (ok (a, c)) (ok (b, d))
    → (a ≡ b) × (c ≡ d)
ok_parts h = (cc, cc)

pub bind-eq-ok :
    {A B : Type 0} (m : Read A) (f : A → Read B) (c : Cur) (r : B × Cur)
    → (m >>= f) c ≡ ok r
    → (a : A) × (c' : Cur) × (m c ≡ ok (a, c')) × (f a c' ≡ ok r)
bind-eq-ok {A} m f c r h = go (m c) refl
  where
    go :
        (x : Decoded (A × Cur))
        → m c ≡ x
        → (a : A) × (c' : Cur) × (m c ≡ ok (a, c')) × (f a c' ≡ ok r)
    go (ok (a, c')) e = (a, c', e, rw (e, ◌>>=◌) at h)
    go (err x) e = absurd (cc (rw (e, ◌>>=◌) at h))

pub Ensures-pure : {A : Type 0} (a : A) (Q : A → ℕ → Type 0) → Q a 0 → Ensures (pure a) Q
Ensures-pure a Q q c c' a' e =
    let (ea, ec) = ok_parts e in
    (
      ap (λ x. x.b) (sym ec),
      omega (arith, ap (λ x. x.i) ec),
      (λ h. omega (arith, ap (λ x. x.i) ec)),
      subst (λ x. Q x (c'.i - c.i)) ea (subst (Q a) (omega (arith, ap (λ x. x.i) ec)) q),
    )

pub Ensures-bind :
    {A B : Type 0} (m : Read A) (f : A → Read B) (P : A → ℕ → Type 0) (Q : B → ℕ → Type 0)
    → Ensures m P
    → ((a : A) (k : ℕ) → P a k → Ensures (f a) (λ b j. Q b (k + j)))
    → Ensures (m >>= f) Q
Ensures-bind m f P Q p q c c' b e =
    let (a, d, e₁, e₂) = bind-eq-ok m f c (b, c') e in
    let (b₁, i₁, l₁, p₁) = p c d a e₁ in
    let (b₂, i₂, l₂, q₂) = q a (d.i - c.i) p₁ d c' b e₂ in
    (
      b₂ ∙ b₁,
      omega arith,
      (λ h. omega (arith, ap length b₁, l₁ h, l₂)),
      subst (Q b) (omega arith) q₂,
    )

pub Ensures-fail : {A : Type 0} (e : DecodeError) (Q : A → ℕ → Type 0) → Ensures (fail e) Q
Ensures-fail e Q c c' a h = cc

-- A test between two reads.
pub Ensures-if :
    {A : Type 0} (t : Bool) (m n : Read A) (Q : A → ℕ → Type 0)
    → Ensures m Q
    → Ensures n Q
    → Ensures (if t then m else n) Q
Ensures-if true m n Q p q = p
Ensures-if false m n Q p q = q

pub Ensures-take_from : (n : ℕ) → Ensures (take_from n) (λ s k. k ≡ n)
unfolding take_from
Ensures-take_from n c c' s e = ground arith

pub Ensures-u8 : Ensures get_u8 (λ v k. k ≡ 1)
unfolding get_u8
Ensures-u8 =
    Ensures-bind (take_from 1) _ (λ s k. k ≡ 1) (λ v k. k ≡ 1) (Ensures-take_from 1)
      (λ a k h. Ensures-pure _ (λ v j. k + j ≡ 1) (omega arith))

pub Ensures-u64 : Ensures get_u64 (λ v k. k ≡ 8)
unfolding get_u64
Ensures-u64 =
    Ensures-bind (take_from 8) _ (λ s k. k ≡ 8) (λ v k. k ≡ 8) (Ensures-take_from 8)
      (λ a k h. Ensures-pure _ (λ v j. k + j ≡ 8) (omega arith))

-- A weaker claim about the same read.
pub Ensures-weaken :
    {A : Type 0} (m : Read A) (P Q : A → ℕ → Type 0)
    → Ensures m P
    → ((a : A) (k : ℕ) → P a k → Q a k)
    → Ensures m Q
Ensures-weaken m P Q p w c c' a e = let r = p c c' a e in (r.0, r.1, r.2, w a _ r.3)

pub Ensures-bytes : Ensures get_bytes (λ v k. Unit {0})
unfolding get_bytes
Ensures-bytes =
    Ensures-bind get_u64 take_from (λ s k. k ≡ 8) (λ v k. Unit {0}) Ensures-u64
      (λ a k h.
        Ensures-weaken (take_from a) (λ s j. j ≡ a) (λ s j. Unit {0}) (Ensures-take_from a)
          (λ _ _ _. tt))

-- A read whose value is then only wrapped.
pub Ensures-map :
    {A B : Type 0} (m : Read A) (f : A → B) (P : A → ℕ → Type 0) (Q : B → ℕ → Type 0)
    → Ensures m P
    → ((a : A) (k : ℕ) → P a k → Q (f a) k)
    → Ensures (m >>= λ x. pure (f x)) Q
Ensures-map m f P Q p w =
    Ensures-bind m (λ x. pure (f x)) P Q p
      (λ a k h. Ensures-pure (f a) (λ b j. Q b (k + j)) (subst (Q (f a)) (omega arith) (w a k h)))
