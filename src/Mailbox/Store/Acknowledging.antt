-- ===== src/Mailbox/Store/Acknowledging.antt =====
-- That an acknowledgement of a receiver's own messages returns (acknowledge_mailbox_batch of
-- capslock/storage/repositories/collaboration.py).
use mathlib.Core.Path.{subst}
use caps_lock.Prelude.{
  ℕ, ◌+◌, ◌≤◌, ◌≡◌, refl, sym, Bool, true, false, not, ◌&&◌, ◌||◌, List, [], ◌∷◌, String, arith,
  ◌==◌, ==_self, eq_iff, mem, string_eq, bool_eq, nat_eq, length, keep, any, All, return,
  Bool-cases, inl, inr,
}
use caps_lock.Table.{
  row_count, update_where, row_count_mono, row_count-update_where, row_count-keep, row_count-zero,
}
use caps_lock.Mailbox.Store.{
  Message, acknowledge_mailbox_batch, acknowledge_row, unique, message_ids, has_message_id,
  not_expired,
}
use caps_lock.Mailbox.Store.Draining.{row_count-head}
use caps_lock.Mailbox.Store.Rounds.{mem-keep}

-- `id` is the primary key
abbrev pub IsKeyed : List Message → Type 0
IsKeyed rows = (x : String) → row_count (has_message_id x) rows ≤ 1

-- what an acknowledgement refuses
abbrev pub is_foreign : String → Message → Bool
is_foreign address m = not (m.recipient_address == address) || not (not_expired m.status)

-- the row of each id is there once, and is not refused
module _ (address : String) (t : List Message) where
  abbrev pub IsOwn : String → Type 0
  IsOwn x =
      (row_count (has_message_id x) t ≡ 1)
      × (row_count (λ m. has_message_id x m && is_foreign address m) t ≡ 0)

  -- the ids are distinct, and each is one of the address
  OwnIds : List String → Type 0
  OwnIds [] = Unit
  OwnIds (x ∷ ids) = (mem x ids ≡ false) × IsOwn x × OwnIds ids

  OwnIds-keep : (p : String → Bool) (ids : List String) → OwnIds ids → OwnIds (keep p ids)
  unfolding OwnIds
  OwnIds-keep p [] h = tt
  OwnIds-keep p (x ∷ ids) (h, own, rest) = elim (Bool-cases (p x)) [
    | inl e ↦ rw e (mem-keep x p ids h, own, OwnIds-keep p ids rest)
    | inr e ↦ rw e (OwnIds-keep p ids rest)
  ]

  without : (x : String) (ids : List String) → mem x (keep (λ y. not (y == x)) ids) ≡ false
  without x [] = refl
  without x (y ∷ ids) = elim (Bool-cases (y == x)) [
    | inl e ↦ ground (arith, e, without x ids)
    | inr f ↦ elim (Bool-cases (x == y)) [
      | inl e ↦
          let same : x ≡ y = (eq_iff x y).0 e in
          let itself : y == x ≡ true = (eq_iff y x).1 (sym same) in
          absurd (ground (arith, f, itself))
      | inr g ↦ ground (arith, f, g, without x ids)
    ]
  ]

  unique-OwnIds : (ids : List String) → All IsOwn ids → OwnIds (unique ids)
  unfolding unique OwnIds
  unique-OwnIds [] h = tt
  unique-OwnIds (x ∷ ids) (own, rest) = (
    without x (unique ids),
    own,
    OwnIds-keep (λ y. not (y == x)) (unique ids) (unique-OwnIds ids rest),
  )

  -- rows whose id is one of two kinds
  row_count-either :
      (p q r : Message → Bool)
      → ((m : Message) → r m ≡ true → (p m || q m) ≡ true)
      → (rows : List Message) → row_count r rows ≤ row_count p rows + row_count q rows
  unfolding row_count
  row_count-either p q r sub [] = omega arith
  row_count-either p q r sub (m ∷ rows) = ground (arith, sub m, row_count-either p q r sub rows)

  row_count-or :
      (p q : Message → Bool)
      → ((m : Message) → (p m && q m) ≡ false)
      → (rows : List Message)
      → row_count (λ m. p m || q m) rows ≡ row_count p rows + row_count q rows
  unfolding row_count
  row_count-or p q apart [] = refl
  row_count-or p q apart (m ∷ rows) = ground (arith, apart m, row_count-or p q apart rows)

  -- a row has one id
  one_id :
      (x : String) (ids : List String)
      → mem x ids ≡ false
      → (m : Message) → ((m.id == x) && mem m.id ids) ≡ false
  one_id x ids h m = elim (Bool-cases (m.id == x)) [
    | inl e ↦
        let same : m.id ≡ x = (eq_iff m.id x).0 e in
        let free : mem m.id ids ≡ false = subst (λ y. mem y ids ≡ false) (sym same) h in
        ground (arith, free)
    | inr f ↦ ground (arith, f)
  ]

  abbrev named : List String → Message → Bool
  named ids m = mem m.id ids

  named-count : (ids : List String) → OwnIds ids → row_count (named ids) t ≡ length ids
  unfolding OwnIds
  named-count [] h = row_count-zero (named []) t (λ m. refl)
  named-count (x ∷ ids) (h, own, rest) = omega (
    arith,
    row_count_mono (named (x ∷ ids)) (λ m. (m.id == x) || named ids m) (λ m e. e) t,
    row_count_mono (λ m. (m.id == x) || named ids m) (named (x ∷ ids)) (λ m e. e) t,
    row_count-or (has_message_id x) (named ids) (one_id x ids h) t,
    own.0,
    named-count ids rest,
  )

  named-own :
      (ids : List String) → OwnIds ids → row_count (λ m. named ids m && is_foreign address m) t ≡ 0
  unfolding OwnIds
  named-own [] h = row_count-zero (λ m. named [] m && is_foreign address m) t (λ m. refl)
  named-own (x ∷ ids) (h, own, rest) = omega (
    arith,
    row_count-either (λ m. has_message_id x m && is_foreign address m)
        (λ m. named ids m && is_foreign address m) (λ m. named (x ∷ ids) m && is_foreign address m)
        (λ m e. ground arith) t,
    own.1,
    named-own ids rest,
  )

  any-none :
      (p q : Message → Bool) (rows : List Message)
      → row_count (λ m. p m && q m) rows ≡ 0
      → any q (keep p rows) ≡ false
  unfolding row_count
  any-none p q [] h = refl
  any-none p q (m ∷ rows) h = ground (arith, any-none p q rows)

  -- an acknowledgement of rows of the address returns
  pub acknowledge_returns :
      (now : ℕ) (ids : List String)
      → All IsOwn ids
      → (u : List Message) × (acknowledge_mailbox_batch ids address now t ≡ return u)
        × ((p : Message → Bool)
            → ((m : Message) → p (acknowledge_row now m) ≡ p m)
            → row_count p u ≡ row_count p t)
  unfolding acknowledge_mailbox_batch
  acknowledge_returns now [] h = (t, refl, λ p same. refl)
  acknowledge_returns now (i ∷ ids) h =
      let own = unique-OwnIds (i ∷ ids) h in
      let taken : Message → Bool = named (unique (i ∷ ids)) in
      let whole : nat_eq (length (keep taken t)) (length (unique (i ∷ ids))) ≡ true =
        ground (arith, row_count-keep taken t, named-count (unique (i ∷ ids)) own) in
      let none_foreign = any-none taken (is_foreign address) t (named-own (unique (i ∷ ids)) own) in
      (
        update_where taken (acknowledge_row now) t,
        rw (whole, none_foreign) refl,
        λ p same. row_count-update_where p taken (acknowledge_row now) same t,
      )

  -- a message of the address that is in the table, whose ids are unique
  pub listed-IsOwn :
      IsKeyed t
      → (rows : List Message) → row_count (is_foreign address) rows ≡ 0
      → ((p : Message → Bool) → row_count p rows ≤ row_count p t)
      → All IsOwn (message_ids rows)
  unfolding row_count
  listed-IsOwn keyed [] own sub = tt
  listed-IsOwn keyed (m ∷ rows) own sub =
      let mine : is_foreign address m ≡ false = elim (Bool-cases (is_foreign address m)) [
        | inl e ↦ absurd (ground (arith, e, own))
        | inr f ↦ f
      ] in
      let good : Message → Bool = λ n. has_message_id m.id n && not (is_foreign address n) in
      let bad : Message → Bool = λ n. has_message_id m.id n && is_foreign address n in
      let here : 1 ≤ row_count good t =
        omega (arith, sub good, row_count-head good m rows (ground (arith, ==_self m.id, mine))) in
      let once = keyed m.id in
      let both = row_count-or good bad (λ n. ground arith) t in
      let within =
        row_count_mono (λ n. good n || bad n) (has_message_id m.id) (λ n e. ground arith) t in
      let good_within = row_count_mono good (has_message_id m.id) (λ n e. ground arith) t in
      (
        (omega (arith, here, once, good_within), omega (arith, here, once, both, within)),
        listed-IsOwn keyed rows (ground (arith, own)) (λ p. ground (arith, sub p)),
      )
