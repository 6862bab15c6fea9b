-- ===== src/Table.antt =====
-- A table of the SQLite stores as its list of rows, in insertion order, with the two statements
-- that the repositories build their operations from: `SELECT … WHERE p` for the first row, and
-- `UPDATE … SET f WHERE p` with the count of the rows that it wrote.
use mathlib.Core.Option
use mathlib.Core.Path.{subst}
use caps_lock.Prelude.{
  All, Bool-cases, inl, inr, ◌++◌, ◌+◌, any, nat_eq, ◌≤◌, ℕ, suc, ◌≡◌, refl, ap, Bool, true, false,
  some, List, [], ◌∷◌, arith, if◌then◌else◌, length, first, map, keep,
}

module _ {ℓ} {R : Type ℓ} where
  -- UPDATE … SET f WHERE p
  unfoldable pub update_where : (R → Bool) → (R → R) → List R → List R
  update_where p f rows = map (λ r. if p r then f r else r) rows

  -- cursor.rowcount
  unfoldable pub row_count : (R → Bool) → List R → ℕ
  row_count p [] = 0
  row_count p (r ∷ rows) = let n = row_count p rows in if p r then suc n else n

  -- an update whose condition no row meets changes nothing
  pub update_where_none :
      (p : R → Bool) (f : R → R) (rows : List R)
      → row_count p rows ≡ 0
      → update_where p f rows ≡ rows
  unfolding update_where row_count
  update_where_none p f [] h = refl
  update_where_none p f (r ∷ rows) h = ground (arith, update_where_none p f rows)

  pub length-update_where :
      (p : R → Bool) (f : R → R) (rows : List R) → length (update_where p f rows) ≡ length rows
  unfolding update_where
  length-update_where p f [] = refl
  length-update_where p f (r ∷ rows) = ap suc (length-update_where p f rows)

  pub row_count-first : (p : R → Bool) (rows : List R) (r : R) → first p rows ≡ some r → p r ≡ true
  row_count-first p [] r h = ground arith
  row_count-first p (x ∷ rows) r h = ground (arith, row_count-first p rows r)

  -- a row is looked up after an update as it was before, with the update made on it
  pub first-update_where :
      (q p : R → Bool) (f : R → R)
      → ((r : R) → q (f r) ≡ q r)
      → (rows : List R)
      → first q (update_where p f rows) ≡ Option.map (λ r. if p r then f r else r) (first q rows)
  unfolding update_where
  first-update_where q p f same [] = refl
  first-update_where q p f same (r ∷ rows) =
      ground (arith, same r, first-update_where q p f same rows)

  -- a write that leaves the looked-up rows alone leaves the look-up alone
  pub first-update_where_ne :
      (q p : R → Bool) (f : R → R)
      → ((r : R) → q (f r) ≡ q r)
      → ((r : R) → q r ≡ true → p r ≡ false)
      → (rows : List R) → first q (update_where p f rows) ≡ first q rows
  unfolding update_where
  first-update_where_ne q p f same apart [] = refl
  first-update_where_ne q p f same apart (r ∷ rows) =
      ground (arith, same r, apart r, first-update_where_ne q p f same apart rows)

  pub row_count-pos :
      (p q : R → Bool) (rows : List R) (r : R)
      → first q rows ≡ some r
      → p r ≡ true
      → nat_eq (row_count p rows) 0 ≡ false
  unfolding row_count
  row_count-pos p q [] r h t = cc
  row_count-pos p q (x ∷ rows) r h t = ground (arith, row_count-pos p q rows r)

  pub row_count-zero :
      (p : R → Bool) (rows : List R) → ((r : R) → p r ≡ false) → row_count p rows ≡ 0
  unfolding row_count
  row_count-zero p [] h = refl
  row_count-zero p (x ∷ rows) h = ground (arith, h x, row_count-zero p rows h)

  module _ {κ} (P : R → Type κ) where
    -- an invariant of rows that the written rows keep
    pub All-update_where :
        (p : R → Bool) (f : R → R)
        → ((r : R) → P r → p r ≡ true → P (f r))
        → (rows : List R) → All P rows
        → All P (update_where p f rows)
    unfolding update_where
    All-update_where p f keep [] h = tt
    All-update_where p f keep (r ∷ rows) (h, hs) = (
      elim (Bool-cases (p r)) [ inl e ↦ rw e (keep r h e) | inr e ↦ rw e h ],
      All-update_where p f keep rows hs,
    )

    pub All-append : (xs ys : List R) → All P xs → All P ys → All P (xs ++ ys)
    All-append [] ys h k = k
    All-append (x ∷ xs) ys (h, hs) k = (h, All-append xs ys hs k)

    pub All-first :
        (q : R → Bool) (rows : List R) (r : R) → All P rows → first q rows ≡ some r → P r
    All-first q [] r h e = cc
    All-first q (x ∷ rows) r (h, hs) e = elim (Bool-cases (q x)) [
      | inl t ↦ let same : x ≡ r = ground arith in subst P same h
      | inr t ↦ All-first q rows r hs (ground arith)
    ]

  -- an update after which no row meets its condition
  pub All-settled :
      (p : R → Bool) (f : R → R)
      → ((r : R) → p r ≡ true → p (f r) ≡ false)
      → (rows : List R) → All (λ r. p r ≡ false) (update_where p f rows)
  unfolding update_where
  All-settled p f done [] = tt
  All-settled p f done (r ∷ rows) = (ground (arith, done r), All-settled p f done rows)

  pub row_count-settled :
      (p : R → Bool) (f : R → R)
      → ((r : R) → p r ≡ true → p (f r) ≡ false)
      → (rows : List R) → row_count p (update_where p f rows) ≡ 0
  unfolding update_where row_count
  row_count-settled p f done [] = refl
  row_count-settled p f done (r ∷ rows) = ground (arith, done r, row_count-settled p f done rows)

  -- an update that changes `q` on no row that it writes
  pub row_count-apart :
      (q p : R → Bool) (f : R → R)
      → ((r : R) → p r ≡ true → q (f r) ≡ q r)
      → (rows : List R) → row_count q (update_where p f rows) ≡ row_count q rows
  unfolding update_where row_count
  row_count-apart q p f same [] = refl
  row_count-apart q p f same (r ∷ rows) = ground (arith, same r, row_count-apart q p f same rows)

  pub row_count_mono :
      (q p : R → Bool)
      → ((r : R) → q r ≡ true → p r ≡ true)
      → (rows : List R) → row_count q rows ≤ row_count p rows
  unfolding row_count
  row_count_mono q p sub [] = omega arith
  row_count_mono q p sub (r ∷ rows) = ground (arith, sub r, row_count_mono q p sub rows)

  -- under a unique key, a condition that the row of the key fails is met by no row of the key
  pub row_count_unique :
      (q p : R → Bool)
      → ((r : R) → q r ≡ true → p r ≡ true)
      → (rows : List R) (a : R) → first p rows ≡ some a
      → q a ≡ false
      → row_count p rows ≤ 1
      → row_count q rows ≡ 0
  unfolding row_count
  row_count_unique q p sub [] a h n u = refl
  row_count_unique q p sub (r ∷ rows) a h n u =
      ground (arith, sub r, row_count_mono q p sub rows, row_count_unique q p sub rows a)

  pub row_count-update_where :
      (q p : R → Bool) (f : R → R)
      → ((r : R) → q (f r) ≡ q r)
      → (rows : List R) → row_count q (update_where p f rows) ≡ row_count q rows
  unfolding update_where row_count
  row_count-update_where q p f same [] = refl
  row_count-update_where q p f same (r ∷ rows) =
      ground (arith, same r, row_count-update_where q p f same rows)

  -- under a unique key, the row that meets more is the row of the key
  pub first_unique :
      (q p : R → Bool)
      → ((r : R) → q r ≡ true → p r ≡ true)
      → (rows : List R) (a : R) → first q rows ≡ some a
      → row_count p rows ≤ 1
      → first p rows ≡ some a
  unfolding row_count
  first_unique q p sub [] a h u = cc
  first_unique q p sub (r ∷ rows) a h u = ground (
    arith,
    sub r,
    sub a,
    row_count-first q rows a,
    row_count-pos p q rows a,
    first_unique q p sub rows a,
  )

  pub row_count-append :
      (p : R → Bool) (rows : List R) (r : R)
      → row_count p (rows ++ r ∷ []) ≡ row_count p rows + (if p r then 1 else 0)
  unfolding row_count
  row_count-append p [] r = ground arith
  row_count-append p (x ∷ rows) r = ground (arith, row_count-append p rows r)

  pub row_count-absent : (p : R → Bool) (rows : List R) → any p rows ≡ false → row_count p rows ≡ 0
  unfolding row_count
  row_count-absent p [] h = refl
  row_count-absent p (r ∷ rows) h = ground (arith, row_count-absent p rows)

  pub first-append :
      (p : R → Bool) (rows : List R) (r a : R)
      → first p rows ≡ some a
      → first p (rows ++ r ∷ []) ≡ some a
  first-append p [] r a h = cc
  first-append p (x ∷ rows) r a h = ground (arith, first-append p rows r a)

  pub row_count-keep : (p : R → Bool) (rows : List R) → row_count p rows ≡ length (keep p rows)
  unfolding row_count
  row_count-keep p [] = refl
  row_count-keep p (r ∷ rows) = ground (arith, row_count-keep p rows)

pub All-map {ℓ κ} :
    {R : Type ℓ} (P Q : R → Type κ)
    → ((r : R) → P r → Q r)
    → (rows : List R) → All P rows
    → All Q rows
All-map P Q f [] h = tt
All-map P Q f (r ∷ rows) (h, hs) = (f r h, All-map P Q f rows hs)
