-- ===== src/Governance/Loops/Detection.antt =====
-- `_loop_detail` against what it looks for: it answers None exactly when the call that is proposed
-- completes no loop.
use mathlib.Core.List.{reverse, reverse-append, reverse-reverse, append_assoc}
use mathlib.Core.List.{reverse-cons as reverse_of_cons}
use mathlib.Core.Path.{subst}
use caps_lock.Prelude.{
  ℕ, zero, suc, ◌+◌, ◌-◌, ◌*◌, ◌≤◌, ◌<◌, ◌≡◌, ◌↔◌, refl, sym, ap, ◌∙◌, true, false, Option, none,
  some, List, [], ◌∷◌, ◌++◌, String, arith, leb, nat_eq, length, take, drop, replicate, All, map,
  length-append, take-append-drop, length-replicate, Bool-cases, Option-cases, inl, inr,
}
use caps_lock.Governance.Loops.Tails.{
  last_items, repeated, distinct, list_beq, length-repeated, repeated-suc, last_items_split,
  last_items-append, length-last_items, list_beq_iff, distinct-replicate, distinct_one,
  mem-last_items, length-of_append,
}
use caps_lock.Governance.Loops.{
  LoopSettings, IsValidSettings, Attempt, Key, key_eq, print, key, failed_call, count_failed,
  Detail, failed_retry, consecutive, cycle, process_stalled, prospective, is_cycle, find_cycle,
  is_consecutive, loop_detail,
}

-- `n` attempts that failed at this call end the history
abbrev pub EndsInFailures : String → ℕ → List Attempt → Type 0
EndsInFailures fp n h =
    (pre : List Attempt) × (suf : List Attempt) × (h ≡ pre ++ suf)
    × All (λ a. failed_call fp a ≡ true) suf
    × (n ≤ length suf)

-- the call and those before it are `n` times the same
abbrev pub EndsInRepeats : String → ℕ → List Attempt → Type 0
EndsInRepeats fp n h = (pre : List Key) × (prospective h fp ≡ pre ++ replicate n (print fp))

-- the calls up to this one end in `n` rounds of one block of `p` calls
abbrev pub EndsInCycle : String → (n p : ℕ) → List Attempt → Type 0
EndsInCycle fp n p h =
    (pre : List Key) × (block : List Key) × (length block ≡ p)
    × (prospective h fp ≡ pre ++ repeated n block)

module _ (fp : String) where
  count_failed-take :
      (r : List Attempt) → All (λ a. failed_call fp a ≡ true) (take (count_failed fp r) r)
  unfolding count_failed
  count_failed-take [] = tt
  count_failed-take (a ∷ r) = elim (Bool-cases (failed_call fp a)) [
    | inl f ↦ rw f (f, count_failed-take r)
    | inr f ↦ rw f tt
  ]

  count_failed-le : (r : List Attempt) → length (take (count_failed fp r) r) ≡ count_failed fp r
  unfolding count_failed
  count_failed-le [] = refl
  count_failed-le (a ∷ r) = ground (arith, count_failed-le r)

  le-count_failed :
      (suf r : List Attempt)
      → All (λ a. failed_call fp a ≡ true) suf
      → length suf ≤ count_failed fp (suf ++ r)
  unfolding count_failed
  le-count_failed [] r h = omega arith
  le-count_failed (a ∷ suf) r (h, hs) = ground (arith, le-count_failed suf r hs)

All-snoc :
    (P : Attempt → Type 0) (xs : List Attempt) (a : Attempt) → All P xs → P a → All P (xs ++ a ∷ [])
All-snoc P [] a h p = (p, tt)
All-snoc P (x ∷ xs) a (h, hs) p = (h, All-snoc P xs a hs p)

All-reverse : (P : Attempt → Type 0) (xs : List Attempt) → All P xs → All P (reverse xs)
All-reverse P [] h = tt
All-reverse P (x ∷ xs) (h, hs) =
    subst (All P) (sym (reverse_of_cons x xs)) (All-snoc P (reverse xs) x (All-reverse P xs hs) h)

length-reverse : (xs : List Attempt) → length (reverse xs) ≡ length xs
length-reverse [] = refl
length-reverse (x ∷ xs) = omega (
  arith,
  ap length (reverse_of_cons x xs),
  length-append (reverse xs) (x ∷ []),
  length-reverse xs,
)

-- The count of failures is the length of the longest run of failures that ends the history.
EndsInFailures-count_failed :
    (fp : String) (h : List Attempt) → EndsInFailures fp (count_failed fp (reverse h)) h
EndsInFailures-count_failed fp h =
    let r = reverse h in
    let n = count_failed fp r in
    (
      reverse (drop n r),
      reverse (take n r),
      sym (reverse-reverse h)
          ∙ ap reverse (sym (take-append-drop n r))
          ∙ reverse-append (take n r) (drop n r),
      All-reverse (λ a. failed_call fp a ≡ true) (take n r) (count_failed-take fp r),
      omega (arith, length-reverse (take n r), count_failed-le fp r),
    )

le-count_failed_of_ends :
    (fp : String) (n : ℕ) (h : List Attempt)
    → EndsInFailures fp n h
    → n ≤ count_failed fp (reverse h)
le-count_failed_of_ends fp n h (pre, suf, e, all, le) =
    let split : reverse h ≡ reverse suf ++ reverse pre = ap reverse e ∙ reverse-append pre suf in
    subst (λ r. n ≤ count_failed fp r) (sym split)
      (omega (
        arith,
        length-reverse suf,
        le-count_failed fp (reverse suf) (reverse pre)
            (All-reverse (λ a. failed_call fp a ≡ true) suf all),
      ))

EndsInFailures-mono :
    (fp : String) (m n : ℕ) (h : List Attempt)
    → m ≤ n
    → EndsInFailures fp n h
    → EndsInFailures fp m h
EndsInFailures-mono fp m n h l (pre, suf, e, all, le) = (pre, suf, e, all, omega arith)

le-mul : (p n : ℕ) → 1 ≤ n → p ≤ p * n
le-mul p n h = grind arith

distinct-replicate_pos : (n : ℕ) (a : Key) → 1 ≤ n → distinct (replicate n a) ≡ 1
distinct-replicate_pos zero a h = absurd (omega arith)
distinct-replicate_pos (suc n) a h = distinct-replicate n a

module _ (fp : String) (h : List Attempt) where
  repeats_found :
      (n : ℕ) → 1 ≤ n → is_consecutive n (prospective h fp) ≡ true → EndsInRepeats fp n h
  unfolding is_consecutive prospective
  repeats_found n pos t =
      let keys = prospective h fp in
      let short : n ≤ length keys = ground arith in
      let one : distinct (last_items n keys) ≡ 1 = ground arith in
      let size = length-last_items n keys pos short in
      let same =
        distinct_one (last_items n keys) (print fp) (mem-last_items n (map key h) (print fp) pos)
          one in
      (
        take (length keys - n) keys,
        last_items_split n keys pos
            ∙ ap (λ ys. take (length keys - n) keys ++ ys)
                (same ∙ ap (λ k. replicate k (print fp)) size),
      )

  repeats_seen : (n : ℕ) → 1 ≤ n → EndsInRepeats fp n h → is_consecutive n (prospective h fp) ≡ true
  unfolding is_consecutive
  repeats_seen n pos (pre, e) =
      let last : last_items n (prospective h fp) ≡ replicate n (print fp) =
        ap (last_items n) e
        ∙ last_items-append n pre (replicate n (print fp)) pos (length-replicate n (print fp)) in
      let size = length-of_append pre (replicate n (print fp)) (prospective h fp) e in
      rw last (
        ground
          (arith, size, length-replicate n (print fp), distinct-replicate_pos n (print fp) pos))

  cycle_found :
      (n p : ℕ) → 1 ≤ n → 1 ≤ p → is_cycle n p (prospective h fp) ≡ true → EndsInCycle fp n p h
  unfolding is_cycle
  cycle_found n p pn pp t =
      let keys = prospective h fp in
      let width : p * n ≤ length keys = ground arith in
      let block = last_items p keys in
      let same : last_items (p * n) keys ≡ repeated n block =
        (list_beq_iff (last_items (p * n) keys) (repeated n block)).0 (ground arith) in
      (
        take (length keys - p * n) keys,
        block,
        length-last_items p keys pp (grind (arith, le-mul p n pn)),
        last_items_split (p * n) keys (grind (arith, le-mul p n pn))
            ∙ ap (λ ys. take (length keys - p * n) keys ++ ys) same,
      )

  cycle_seen :
      (n p : ℕ) → 1 ≤ n → 1 ≤ p → EndsInCycle fp n p h → is_cycle n p (prospective h fp) ≡ true
  unfolding is_cycle
  cycle_seen zero p pn pp c = absurd (omega arith)
  cycle_seen (suc k) p pn pp (pre, block, size, e) =
      let n = suc k in
      let keys = prospective h fp in
      let all_ = length-repeated n block in
      let width : length (repeated n block) ≡ p * n = grind (arith, all_, size) in
      let total = length-of_append pre (repeated n block) keys e in
      let tail_ : last_items (p * n) keys ≡ repeated n block =
        ap (last_items (p * n)) e
        ∙ last_items-append (p * n) pre (repeated n block) (grind (arith, le-mul p n pn)) width in
      let last : last_items p keys ≡ block =
        ap (last_items p) (
          e
          ∙ ap (λ ys. pre ++ ys) (repeated-suc k block)
          ∙ sym (append_assoc pre (repeated k block) block))
        ∙ last_items-append p (pre ++ repeated k block) block pp size in
      let equal : list_beq (last_items (p * n) keys) (repeated n (last_items p keys)) ≡ true =
        (list_beq_iff (last_items (p * n) keys) (repeated n (last_items p keys))).1
          (tail_ ∙ ap (repeated n) (sym last)) in
      ground (arith, equal, total, width)

module _ (n : ℕ) (keys : List Key) where
  find_cycle-some :
      (rounds p q : ℕ)
      → find_cycle n keys rounds p ≡ some q
      → (is_cycle n q keys ≡ true) × (p ≤ q) × (q < p + rounds)
  unfolding find_cycle
  find_cycle-some zero p q h = cc
  find_cycle-some (suc rounds) p q h = ground (arith, find_cycle-some rounds (p + 1) q)

  find_cycle-none :
      (rounds p q : ℕ)
      → find_cycle n keys rounds p ≡ none
      → p ≤ q
      → q < p + rounds
      → is_cycle n q keys ≡ false
  unfolding find_cycle
  find_cycle-none zero p q h l u = absurd (omega arith)
  find_cycle-none (suc rounds) p q h l u = elim (Bool-cases (nat_eq p q)) [
    | inl same ↦ let e : p ≡ q = ground arith in rw (← e) (ground arith)
    | inr other ↦ find_cycle-none rounds (p + 1) q (ground arith) (ground arith) (omega arith)
  ]

module _ (s : LoopSettings) (valid : IsValidSettings s) (h : List Attempt) (fp : String) where
  -- What an answer says is there: the failures that it counts with this call, a run of equal calls,
  -- or rounds of a block whose length is in the range of the settings.
  abbrev pub Explains : Detail → Type 0
  Explains (failed_retry n f) = (f ≡ fp) × (s.failed_retries ≤ n) × EndsInFailures fp (n - 1) h
  Explains (consecutive n f) = (f ≡ fp) × (n ≡ s.consecutive_repeats) × EndsInRepeats fp n h
  Explains (cycle p n f) =
      (f ≡ fp)
      × (n ≡ s.cycle_repetitions)
      × (2 ≤ p)
      × (p ≤ s.max_cycle_length)
      × EndsInCycle fp n p h
  Explains (process_stalled n) = ⊥

  abbrev failures : ℕ
  failures = count_failed fp (reverse h)

  abbrev keys : List Key
  keys = prospective h fp

  abbrev cycle_found_at : Option ℕ
  cycle_found_at = find_cycle s.cycle_repetitions keys (s.max_cycle_length + 1 - 2) 2

  none_parts :
      loop_detail s h fp ≡ none
      → (leb s.failed_retries (failures + 1) ≡ false)
        × (is_consecutive s.consecutive_repeats keys ≡ false)
        × (cycle_found_at ≡ none)
  unfolding loop_detail
  none_parts e = ground arith

  none_of_parts :
      leb s.failed_retries (failures + 1) ≡ false
      → is_consecutive s.consecutive_repeats keys ≡ false
      → cycle_found_at ≡ none
      → loop_detail s h fp ≡ none
  unfolding loop_detail
  none_of_parts a b c = rw (a, b, c)

  -- An answer of the detection is right about the history: the pattern that it names ends it, with
  -- the number of repetitions and, for a cycle, the length that it names.
  pub loop_detail_sound : (d : Detail) → loop_detail s h fp ≡ some d → Explains d
  unfolding loop_detail
  loop_detail_sound (failed_retry n f) e =
      let count : n ≡ failures + 1 = ground arith in
      (
        ground arith,
        ground arith,
        EndsInFailures-mono fp (n - 1) failures h (omega arith) (EndsInFailures-count_failed fp h),
      )
  loop_detail_sound (consecutive n f) e =
      let size : n ≡ s.consecutive_repeats = ground arith in
      (
        ground arith,
        size,
        subst (λ k. EndsInRepeats fp k h) (sym size)
            (repeats_found fp h s.consecutive_repeats (omega arith) (ground arith)),
      )
  loop_detail_sound (cycle p n f) e =
      let size : n ≡ s.cycle_repetitions = ground arith in
      let found : cycle_found_at ≡ some p = ground arith in
      let (is, low, high) =
        find_cycle-some s.cycle_repetitions keys (s.max_cycle_length + 1 - 2) 2 p found in
      (
        ground arith,
        size,
        low,
        omega arith,
        subst (λ k. EndsInCycle fp k p h) (sym size)
            (cycle_found fp h s.cycle_repetitions p (omega arith) (omega arith) is),
      )
  loop_detail_sound (process_stalled n) e = ground arith

  -- The detection lets a call pass exactly when it completes no loop: the history does not end in
  -- one failure less than the limit, the calls up to this one do not end in a run of equal calls of
  -- the limit's length, and in no cycle of a length that the settings look for.
  pub loop_detail-none : (loop_detail s h fp ≡ none) ↔ (
      (¬ EndsInFailures fp (s.failed_retries - 1) h)
      × (¬ EndsInRepeats fp s.consecutive_repeats h)
      × ((p : ℕ) → 2 ≤ p → p ≤ s.max_cycle_length → ¬ EndsInCycle fp s.cycle_repetitions p h))
  loop_detail-none = (passes, clear)
    where
      passes :
          loop_detail s h fp ≡ none
          → (¬ EndsInFailures fp (s.failed_retries - 1) h)
            × (¬ EndsInRepeats fp s.consecutive_repeats h)
            × ((p : ℕ) → 2 ≤ p → p ≤ s.max_cycle_length → ¬ EndsInCycle fp s.cycle_repetitions p h)
      passes e =
          let (a, b, c) = none_parts e in
          (
            λ f. let le = le-count_failed_of_ends fp (s.failed_retries - 1) h f in ground arith,
            λ f. let t = repeats_seen fp h s.consecutive_repeats (omega arith) f in cc,
            λ p low high f.
                let t = cycle_seen fp h s.cycle_repetitions p (omega arith) (omega arith) f in
                let u =
                  find_cycle-none s.cycle_repetitions keys (s.max_cycle_length + 1 - 2) 2 p c low
                    (omega arith) in
                cc,
          )

      clear :
          (¬ EndsInFailures fp (s.failed_retries - 1) h)
            × (¬ EndsInRepeats fp s.consecutive_repeats h)
            × ((p : ℕ) → 2 ≤ p → p ≤ s.max_cycle_length → ¬ EndsInCycle fp s.cycle_repetitions p h)
          → loop_detail s h fp ≡ none
      clear (a, b, c) =
          none_of_parts
            (elim (Bool-cases (leb s.failed_retries (failures + 1))) [
              | inl t ↦ absurd (
                  a (
                    EndsInFailures-mono fp (s.failed_retries - 1) failures h (ground arith)
                      (EndsInFailures-count_failed fp h)))
              | inr t ↦ t
            ])
            (elim (Bool-cases (is_consecutive s.consecutive_repeats keys)) [
              | inl t ↦ absurd (b (repeats_found fp h s.consecutive_repeats (omega arith) t))
              | inr t ↦ t
            ])
            (elim (Option-cases cycle_found_at) [
              | inl t ↦ t
              | inr (p, t) ↦
                  let (is, low, high) =
                    find_cycle-some s.cycle_repetitions keys (s.max_cycle_length + 1 - 2) 2 p t in
                  absurd (
                    c p low (omega arith)
                      (cycle_found fp h s.cycle_repetitions p (omega arith) (omega arith) is))
            ])
