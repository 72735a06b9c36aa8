-- ===== src/Debugger/Rings/Recent.antt =====
-- src/core/scripting/debugger/trace.rs: a ring holds the last of what was pushed.
use oxigeon.Base.{
  ℕ, zero, suc, ◌+◌, ◌-◌, ◌%◌, ◌^◌, ◌≤◌, ◌<◌, false, List, [], ◌∷◌, ◌++◌, ◌==◌, leb, length, drop,
  ◌≡◌, refl, ap, arith, Bool-cases, inl, inr, length-append, ◌∙◌, sym, append_assoc, append-nil,
  length-drop,
}
use oxigeon.Debugger.Rings.{TraceRecord, Rings, evict, push_record, recent, push_all}

module _ {ℓ} {A : Type ℓ} where
  drop-append_within :
      (k : ℕ) (xs ys : List A) → k ≤ length xs → drop k (xs ++ ys) ≡ drop k xs ++ ys
  drop-append_within zero xs ys h = refl
  drop-append_within (suc k) [] ys h = absurd (omega arith)
  drop-append_within (suc k) (x ∷ xs) ys h = drop-append_within k xs ys (omega arith)

  drop_at : (j k : ℕ) (xs : List A) → j ≡ k → drop j xs ≡ drop k xs
  drop_at j k xs e = ap (λ n. drop n xs) e

  drop_nil : (k : ℕ) → drop {A = A} k [] ≡ []
  drop_nil zero = refl
  drop_nil (suc k) = refl

  drop-drop : (j k : ℕ) (xs : List A) → drop j (drop k xs) ≡ drop (k + j) xs
  drop-drop j zero xs = drop_at j (0 + j) xs (omega arith)
  drop-drop j (suc k) [] = drop_nil j ∙ sym (drop_nil (suc k + j))
  drop-drop j (suc k) (x ∷ xs) =
      drop-drop j k xs ∙ drop_at (suc (k + j)) (suc k + j) (x ∷ xs) (omega arith)

  length-recent : (n : ℕ) (xs : List A) → n ≤ length xs → length (recent n xs) ≡ n
  length-recent n xs h = omega (arith, length-drop (length xs - n) xs)

  recent_all : (n : ℕ) (xs : List A) → length xs ≤ n → recent n xs ≡ xs
  recent_all n xs h = drop_at (length xs - n) 0 xs (omega arith)

  pairs : {xs ys : List A} {a b : ℕ} → xs ≡ ys → a ≡ b → ◌≡◌ {A = List A × ℕ} (xs, a) (ys, b)
  pairs e f = rw (e, f)

  evict-recent :
      (n : ℕ) (xs : List A) → ◌≡◌ {A = List A × ℕ} (evict (suc n) xs) (recent n xs, length xs - n)
  unfolding evict
  evict-recent n [] = pairs (sym (drop_nil (0 - n))) (omega arith)
  evict-recent n (x ∷ xs) = elim (Bool-cases (leb (suc n) (suc (length xs)))) [
    | inl e ↦
        rw (e, evict-recent n xs)
          (pairs (drop_at (suc (length xs - n)) (suc (length xs) - n) (x ∷ xs) (ground arith))
            (ground arith))
    | inr e ↦ rw (e, evict) (pairs (sym (recent_all n (x ∷ xs) (ground arith))) (ground arith))
  ]

  -- Of the last ones and more, the last are those of all.
  recent-append : (n : ℕ) (xs ys : List A) → recent n (recent n xs ++ ys) ≡ recent n (xs ++ ys)
  recent-append n xs ys =
      let k = length xs - n in
      let one = drop-append_within k xs ys (omega arith) in
      let lengths = length-append (drop k xs) ys in
      ap (λ zs. drop (length (drop k xs ++ ys) - n) zs) (sym one)
      ∙ drop-drop (length (drop k xs ++ ys) - n) k (xs ++ ys)
      ∙ drop_at (k + (length (drop k xs ++ ys) - n)) (length (xs ++ ys) - n) (xs ++ ys)
          (omega (arith, length-append (drop k xs) ys, length-append xs ys, length-drop k xs))

  recent-snoc :
      (n : ℕ) (xs : List A) (y : A) → recent n xs ++ y ∷ [] ≡ recent (suc n) (xs ++ y ∷ [])
  recent-snoc n xs y =
      sym (drop-append_within (length xs - n) xs (y ∷ []) (omega arith))
      ∙ drop_at (length xs - n) (length (xs ++ y ∷ []) - suc n) (xs ++ y ∷ [])
          (omega (arith, length-append xs (y ∷ [])))

suc_not_zero : (n : ℕ) → (suc n == 0) ≡ false
suc_not_zero n = ground arith

-- One record more.
push_record-recent :
    (rec : TraceRecord) (r : Rings) (n : ℕ)
    → r.trace_cap ≡ suc n
    → let r' = push_record rec r in
      (r'.trace ≡ recent (suc n) (r.trace ++ rec ∷ []))
      × (r'.dropped ≡ (r.dropped + (length r.trace - n)) % 2 ^ 64)
      × (r'.trace_cap ≡ suc n)
unfolding push_record
push_record-recent rec r n h =
    rw (h, suc_not_zero n, evict-recent n r.trace, push_record)
      (recent-snoc n r.trace rec, refl, refl)

-- A ring of some capacity that holds no more than that: after any records are pushed, it holds the
-- last of what it held and of them, as many as fit, in order; those that it no longer holds are
-- counted as dropped, each once, while the count does not wrap.
pub push_all-recent :
    (recs : List TraceRecord) (r : Rings) (n : ℕ)
    → r.trace_cap ≡ suc n
    → length r.trace ≤ suc n
    → r.dropped + length recs < 2 ^ 64
    → let r' = push_all recs r in
      (r'.trace ≡ recent (suc n) (r.trace ++ recs))
      × (r'.dropped + length r'.trace ≡ r.dropped + length r.trace + length recs)
push_all-recent [] r n h l m = (
  sym (append-nil r.trace)
      ∙ sym (recent_all (suc n) (r.trace ++ []) (omega (arith, length-append r.trace []))),
  omega arith,
)
push_all-recent (rec ∷ recs) r n h l m =
    let r' = push_record rec r in
    let one = push_record-recent rec r n h in
    let long = ap length one.0 in
    let all = r.trace ++ rec ∷ [] in
    let cut = length-drop (length all - suc n) all in
    let sizes = length-append r.trace (rec ∷ []) in
    let rest =
      push_all-recent recs r' n one.2 (omega (arith, long, cut, sizes)) (omega (arith, one.1)) in
    (
      rest.0
          ∙ ap (λ t. recent (suc n) (t ++ recs)) one.0
          ∙ recent-append (suc n) all recs
          ∙ ap (λ t. recent (suc n) t) (append_assoc r.trace (rec ∷ []) recs),
      omega (arith, rest.1, one.1, long, cut, sizes),
    )
