-- ===== src/Permissions/Rules/Selection.antt =====
-- Which rule decides: the strictest behaviour that a rule has, and of its rules one that no other
-- outranks.
use mathlib.Core.Path.{subst}
use caps_lock.Prelude.{
  ℕ, ◌≡◌, ◌≢◌, refl, Bool, true, false, Option, none, some, List, [], ◌∷◌, arith, if◌then◌else◌,
  any, all, All, ◌↔◌, string_eq, Bool-cases, inl, inr, sym, ◌∙◌,
}
use caps_lock.Permissions.Rules.{
  lexicographic, PermissionBehavior, allow, ask, deny, PermissionRule, Specificity, source_priority,
  rank_below, same_behavior, best, best_of, with_behavior, select_rule,
}

-- fewer exact constraints, or else fewer constraints, or else shorter ones, or else a weaker source
abbrev pub IsOutranked : PermissionRule → PermissionRule → Type 0
IsOutranked a b =
    lexicographic a.specificity b.specificity (source_priority a.source) (source_priority b.source)
      false
    ≡ true

-- laws of the order, over the numbers alone
below_trans :
    (x y z : Specificity) (i j k : ℕ)
    → ¬ (lexicographic x y i j false ≡ true)
    → ¬ (lexicographic y z j k false ≡ true)
    → ¬ (lexicographic x z i k false ≡ true)
below_trans x y z i j k f g h = ground arith

below_irrefl : (x : Specificity) (i : ℕ) → ¬ (lexicographic x x i i false ≡ true)
below_irrefl x i h = ground arith

below_asym :
    (x y : Specificity) (i j : ℕ) (last : Bool)
    → lexicographic x y i j last ≡ true
    → ¬ (lexicographic y x j i false ≡ true)
below_asym x y i j last h k = ground arith

below_weak :
    (x y : Specificity) (i j : ℕ) (last : Bool)
    → lexicographic x y i j last ≡ false
    → ¬ (lexicographic x y i j false ≡ true)
below_weak x y i j last h k = ground arith

-- of two rules the one that `max` keeps is not outranked by the other
kept :
    (r x : PermissionRule)
    → let k = if rank_below r x then x else r in ¬ IsOutranked k r × ¬ IsOutranked k x
kept r x =
    let i = source_priority r.source in
    let j = source_priority x.source in
    elim (Bool-cases (rank_below r x)) [
      | inl e ↦ rw e (below_asym r.specificity x.specificity i j _ e, below_irrefl x.specificity j)
      | inr e ↦ rw e (below_irrefl r.specificity i, below_weak r.specificity x.specificity i j _ e)
    ]

best-max :
    (r : PermissionRule) (rules : List PermissionRule)
    → All (λ x. ¬ IsOutranked (best r rules) x) (r ∷ rules)
unfolding best
best-max r [] = (below_irrefl r.specificity (source_priority r.source), tt)
best-max r (x ∷ rules) =
    let k = if rank_below r x then x else r in
    let later = best-max k rules in
    let s = λ (a : PermissionRule). a.specificity in
    let p = λ (a : PermissionRule). source_priority a.source in
    let b = best k rules in
    (
      below_trans (s b) (s k) (s r) (p b) (p k) (p r) later.0 (kept r x).0,
      (below_trans (s b) (s k) (s x) (p b) (p k) (p x) later.0 (kept r x).1, later.1),
    )

-- the rule that is chosen is one of the candidates
best-met :
    (q : PermissionRule → Bool) (r : PermissionRule) (rules : List PermissionRule)
    → all q (r ∷ rules) ≡ true
    → q (best r rules) ≡ true
unfolding best
best-met q r [] h = ground arith
best-met q r (x ∷ rules) h =
    best-met q (if rank_below r x then x else r) rules (elim (Bool-cases (rank_below r x)) [
      | inl e ↦ rw e (ground arith)
      | inr e ↦ rw e (ground arith)
    ])

best-any :
    (q : PermissionRule → Bool) (r : PermissionRule) (rules : List PermissionRule)
    → q (best r rules) ≡ true
    → any q (r ∷ rules) ≡ true
unfolding best
best-any q r [] h = ground arith
best-any q r (x ∷ rules) h = ground (arith, best-any q (if rank_below r x then x else r) rules)

abbrev pub has_behavior : PermissionBehavior → PermissionRule → Bool
has_behavior b r = same_behavior r.behavior b

all-with_behavior :
    (b : PermissionBehavior) (rules : List PermissionRule)
    → all (has_behavior b) (with_behavior b rules) ≡ true
all-with_behavior b [] = refl
all-with_behavior b (r ∷ rules) = ground (arith, all-with_behavior b rules)

any-with_behavior :
    (b : PermissionBehavior) (q : PermissionRule → Bool) (rules : List PermissionRule)
    → any q (with_behavior b rules) ≡ true
    → any q rules ≡ true
any-with_behavior b q [] h = h
any-with_behavior b q (r ∷ rules) h = ground (arith, any-with_behavior b q rules)

with_behavior-none :
    (b : PermissionBehavior) (rules : List PermissionRule)
    → with_behavior b rules ≡ [] ↔ any (has_behavior b) rules ≡ false
with_behavior-none b [] = ground arith
with_behavior-none b (r ∷ rules) = ground (arith, with_behavior-none b rules)

-- what one round of the loop finds
record IsFound (b : PermissionBehavior) (matching : List PermissionRule) (r : PermissionRule)
    : Type 0 where
  found_behavior : has_behavior b r ≡ true
  found_member : (q : PermissionRule → Bool) → q r ≡ true → any q matching ≡ true
  found_max : All (λ x. ¬ IsOutranked r x) (with_behavior b matching)

best_of-IsFound :
    (b : PermissionBehavior) (matching : List PermissionRule) (r : PermissionRule)
    → best_of (with_behavior b matching) ≡ some r
    → IsFound b matching r
unfolding best_of
best_of-IsFound b matching r e = go (with_behavior b matching) refl e
  where
    go :
        (c : List PermissionRule)
        → with_behavior b matching ≡ c
        → best_of c ≡ some r
        → IsFound b matching r
    go [] same h = ground arith
    go (x ∷ c) same h =
        let is : best x c ≡ r = ground arith in
        rw⁻¹ is (record {
          found_behavior =
              best-met (has_behavior b) x c
                (subst (λ l. all (has_behavior b) l ≡ true) same (all-with_behavior b matching));
          found_member = λ q p.
              any-with_behavior b q matching
                (subst (λ l. any q l ≡ true) (sym same) (best-any q x c p));
          found_max = subst (All (λ y. ¬ IsOutranked (best x c) y)) (sym same) (best-max x c);
        })

best_of-none :
    (b : PermissionBehavior) (matching : List PermissionRule)
    → best_of (with_behavior b matching) ≡ none
    → any (has_behavior b) matching ≡ false
unfolding best_of
best_of-none b matching e = go (with_behavior b matching) refl e
  where
    go :
        (c : List PermissionRule)
        → with_behavior b matching ≡ c
        → best_of c ≡ none
        → any (has_behavior b) matching ≡ false
    go [] same h = (with_behavior-none b matching).0 same
    go (x ∷ c) same h = ground arith

-- A rule that decides is the verdict of a set of rules.
pub record IsVerdict (matching : List PermissionRule) (r : PermissionRule) : Type 0 where
  -- it is one of them
  pub member : (q : PermissionRule → Bool) → q r ≡ true → any q matching ≡ true
  -- a rule that denies prevails, and one that asks prevails over those that allow
  pub denied : any (has_behavior deny) matching ≡ true → r.behavior ≡ deny
  pub asked : any (has_behavior ask) matching ≡ true → r.behavior ≢ allow
  -- no rule of the same behaviour outranks it
  pub ranked : All (λ x. ¬ IsOutranked r x) (with_behavior r.behavior matching)

verdict :
    (b : PermissionBehavior) (matching : List PermissionRule) (r : PermissionRule)
    → IsFound b matching r
    → (any (has_behavior deny) matching ≡ true → b ≡ deny)
    → (any (has_behavior ask) matching ≡ true → b ≢ allow)
    → IsVerdict matching r
verdict b matching r f d a =
    let same : r.behavior ≡ b = behavior_of r.behavior b f.found_behavior in
    record {
      member = f.found_member;
      denied = λ h. same ∙ d h;
      asked = λ h k. a h (sym same ∙ k);
      ranked = rw same f.found_max;
    }
  where
    behavior_of : (x y : PermissionBehavior) → same_behavior x y ≡ true → x ≡ y
    behavior_of x y e = ground arith

-- The rule that `select_rule` returns is one of the matching rules; it denies where a rule denies
-- and does not allow where a rule asks, whatever the others say; and no matching rule of the same
-- behaviour outranks it.
pub select_rule-some :
    (matching : List PermissionRule) (r : PermissionRule)
    → select_rule matching ≡ some r
    → IsVerdict matching r
unfolding select_rule
select_rule-some matching r e = deny_round (best_of (with_behavior deny matching)) refl
  where
    allow_round :
        best_of (with_behavior deny matching) ≡ none
        → best_of (with_behavior ask matching) ≡ none
        → (c : Option PermissionRule) → best_of (with_behavior allow matching) ≡ c
        → IsVerdict matching r
    allow_round d a none h = ground arith
    allow_round d a (some x) h =
        verdict allow matching r (best_of-IsFound allow matching r (ground arith))
          (λ k. ground (arith, best_of-none deny matching d))
          (λ k. ground (arith, best_of-none ask matching a))

    ask_round :
        best_of (with_behavior deny matching) ≡ none
        → (c : Option PermissionRule) → best_of (with_behavior ask matching) ≡ c
        → IsVerdict matching r
    ask_round d none h = allow_round d h (best_of (with_behavior allow matching)) refl
    ask_round d (some x) h =
        verdict ask matching r (best_of-IsFound ask matching r (ground arith))
          (λ k. ground (arith, best_of-none deny matching d)) (λ k. ground arith)

    deny_round :
        (c : Option PermissionRule)
        → best_of (with_behavior deny matching) ≡ c
        → IsVerdict matching r
    deny_round none h = ask_round h (best_of (with_behavior ask matching)) refl
    deny_round (some x) h =
        verdict deny matching r (best_of-IsFound deny matching r (ground arith)) (λ k. refl)
          (λ k. ground arith)

-- Without a deciding rule there is no matching rule at all.
pub select_rule-none :
    (matching : List PermissionRule) → select_rule matching ≡ none → matching ≡ []
unfolding select_rule
select_rule-none [] e = refl
select_rule-none (r ∷ rules) e = ground (
  arith,
  best_of-none deny (r ∷ rules),
  best_of-none ask (r ∷ rules),
  best_of-none allow (r ∷ rules),
)
