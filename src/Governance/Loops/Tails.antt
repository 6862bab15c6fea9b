-- ===== src/Governance/Loops/Tails.antt =====
-- The last items of a list, and lists built by repetition: what the slices of `_loop_detail` mean.
use mathlib.Core.List.{append-nil, append_assoc}
use mathlib.Core.Path.{ap₂, subst}
use caps_lock.Prelude.{
  ℕ, zero, suc, ◌+◌, ◌-◌, ◌*◌, ◌≤◌, ◌≡◌, ◌↔◌, refl, sym, ap, ◌∙◌, Bool, true, false, List, [], ◌∷◌,
  ◌++◌, ◌&&◌, arith, ==_self, if◌then◌else◌, Eq, ◌==◌, mem, nat_eq, length, take, drop, replicate,
  take-append-drop, length-append, length-drop, drop-append, Bool-cases, inl, inr,
}

module _ {ℓ} {A : Type ℓ} where
  -- xs[-n:]
  unfoldable pub last_items : ℕ → List A → List A
  last_items n xs = if nat_eq n 0 then xs else drop (length xs - n) xs

  -- xs * n
  unfoldable pub repeated : ℕ → List A → List A
  repeated zero xs = []
  repeated (suc n) xs = xs ++ repeated n xs

  pub length-repeated : (n : ℕ) (xs : List A) → length (repeated n xs) ≡ n * length xs
  unfolding repeated
  length-repeated zero xs = omega arith
  length-repeated (suc n) xs = grind (arith, length-append xs (repeated n xs), length-repeated n xs)

  pub repeated-suc : (n : ℕ) (xs : List A) → repeated (suc n) xs ≡ repeated n xs ++ xs
  unfolding repeated
  repeated-suc zero xs = append-nil xs
  repeated-suc (suc n) xs =
      ap (λ ys. xs ++ ys) (repeated-suc n xs) ∙ sym (append_assoc xs (repeated n xs) xs)

  last_items-eq-drop : (n : ℕ) (xs : List A) → 1 ≤ n → last_items n xs ≡ drop (length xs - n) xs
  unfolding last_items
  last_items-eq-drop n xs h = ground arith

  -- a list ends with its last items
  pub last_items_split :
      (n : ℕ) (xs : List A) → 1 ≤ n → xs ≡ take (length xs - n) xs ++ last_items n xs
  last_items_split n xs h =
      sym (take-append-drop (length xs - n) xs)
      ∙ ap (λ ys. take (length xs - n) xs ++ ys) (sym (last_items-eq-drop n xs h))

  -- the last items of a list that ends with `ys` are `ys`
  pub last_items-append :
      (n : ℕ) (xs ys : List A) → 1 ≤ n → length ys ≡ n → last_items n (xs ++ ys) ≡ ys
  last_items-append n xs ys h e =
      let cut : length (xs ++ ys) - n ≡ length xs = omega (arith, length-append xs ys) in
      last_items-eq-drop n (xs ++ ys) h ∙ ap (λ k. drop k (xs ++ ys)) cut ∙ drop-append xs ys

  pub length-of_append : (xs ys zs : List A) → zs ≡ xs ++ ys → length zs ≡ length xs + length ys
  length-of_append xs ys zs e = ap length e ∙ length-append xs ys

  pub length-last_items :
      (n : ℕ) (xs : List A) → 1 ≤ n → n ≤ length xs → length (last_items n xs) ≡ n
  length-last_items n xs h k =
      omega (arith, ap length (last_items-eq-drop n xs h), length-drop (length xs - n) xs)

module _ {ℓ} {A : Type ℓ} ⦃e : Eq A⦄ where
  -- len(set(xs))
  unfoldable pub distinct : List A → ℕ
  distinct [] = 0
  distinct (x ∷ xs) = let n = distinct xs in if mem x xs then n else suc n

  -- xs == ys
  unfoldable pub list_beq : List A → List A → Bool
  list_beq [] [] = true
  list_beq (x ∷ xs) (y ∷ ys) = (x == y) && list_beq xs ys
  list_beq _ _ = false

  list_beq-eq : (xs ys : List A) → list_beq xs ys ≡ true → xs ≡ ys
  unfolding list_beq
  list_beq-eq [] [] h = refl
  list_beq-eq [] (y ∷ ys) h = cc
  list_beq-eq (x ∷ xs) [] h = cc
  list_beq-eq (x ∷ xs) (y ∷ ys) h = ground (arith, e.equal_iff x y, list_beq-eq xs ys)

  list_beq_refl : (xs : List A) → list_beq xs xs ≡ true
  unfolding list_beq
  list_beq_refl [] = refl
  list_beq_refl (x ∷ xs) = ground (arith, ==_self x, list_beq_refl xs)

  pub list_beq_iff : (xs ys : List A) → (list_beq xs ys ≡ true) ↔ (xs ≡ ys)
  list_beq_iff xs ys = (list_beq-eq xs ys, λ p. rw p (list_beq_refl ys))

  -- one value only
  pub distinct-replicate : (n : ℕ) (a : A) → distinct (replicate (suc n) a) ≡ 1
  unfolding distinct
  distinct-replicate zero a = refl
  distinct-replicate (suc n) a = ground (arith, ==_self a, distinct-replicate n a)

  mem-replicate : (n : ℕ) (a x : A) → mem x (replicate n a) ≡ true → x ≡ a
  mem-replicate zero a x h = cc
  mem-replicate (suc n) a x h = ground (arith, e.equal_iff x a, mem-replicate n a x)

  distinct_pos : (x : A) (xs : List A) → 1 ≤ distinct (x ∷ xs)
  unfolding distinct
  distinct_pos x [] = omega arith
  distinct_pos x (y ∷ xs) = ground (arith, distinct_pos y xs)

  -- a list with one distinct value is that value repeated
  pub distinct_one :
      (xs : List A) (a : A) → mem a xs ≡ true → distinct xs ≡ 1 → xs ≡ replicate (length xs) a
  unfolding distinct
  distinct_one [] a m h = cc
  distinct_one (x ∷ []) a m h = ground (arith, e.equal_iff a x)
  distinct_one (x ∷ y ∷ xs) a m h = elim (Bool-cases (mem x (y ∷ xs))) [
    | inl again ↦
        let inner : mem a (y ∷ xs) ≡ true = ground (arith, e.equal_iff a x) in
        let rest : (y ∷ xs) ≡ replicate (length (y ∷ xs)) a =
          distinct_one (y ∷ xs) a inner (ground arith) in
        let same : x ≡ a =
          mem-replicate (length (y ∷ xs)) a x (subst (λ zs. mem x zs ≡ true) rest again) in
        ap₂ ◌∷◌ same rest
    | inr fresh ↦ absurd (ground (arith, distinct_pos y xs))
  ]

  mem-drop-last :
      (k : ℕ) (xs : List A) (a : A) → k ≤ length xs → mem a (drop k (xs ++ a ∷ [])) ≡ true
  mem-drop-last zero [] a h = ground (arith, ==_self a)
  mem-drop-last zero (x ∷ xs) a h = ground (arith, mem-drop-last zero xs a)
  mem-drop-last (suc k) [] a h = absurd (omega arith)
  mem-drop-last (suc k) (x ∷ xs) a h = mem-drop-last k xs a (omega arith)

  -- the last item is among the last items
  pub mem-last_items :
      (n : ℕ) (xs : List A) (a : A) → 1 ≤ n → mem a (last_items n (xs ++ a ∷ [])) ≡ true
  mem-last_items n xs a h =
      subst (λ ys. mem a ys ≡ true) (sym (last_items-eq-drop n (xs ++ a ∷ []) h))
        (mem-drop-last (length (xs ++ a ∷ []) - n) xs a (omega (arith, length-append xs (a ∷ []))))
