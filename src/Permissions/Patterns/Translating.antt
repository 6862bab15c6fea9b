-- ===== src/Permissions/Patterns/Translating.antt =====
-- The regular expression of a pattern: the loop's fuel, a pattern's plain beginning, and the slashes.
use caps_lock.Prelude.{
  ℕ, zero, suc, ◌≤◌, Bool, true, false, not, ◌&&◌, List, [], ◌∷◌, ◌++◌, map, ◌≡◌, refl, ap,
  if◌then◌else◌, nat_eq, length, all, arith,
}
use caps_lock.Permissions.Patterns.{
  Text, slash, star, question, backslash, Node, literal, one_within, many_within, anything,
  directories, next_node, translate, full_match, repeated, within,
}

next_node-shorter : (c : ℕ) (s : Text) → length (next_node c s).1 ≤ length s
next_node-shorter c [] = ground arith
next_node-shorter c (a ∷ []) = ground arith
next_node-shorter c (a ∷ b ∷ s) = ground arith

-- The loop over a pattern ends within as many rounds as the pattern has characters: with any
-- bound from there on the expression is the same.
pub translate_fuel :
    (f g : ℕ) (s : Text) → length s ≤ f → length s ≤ g → translate f s ≡ translate g s
unfolding translate
translate_fuel zero zero s h k = refl
translate_fuel zero (suc g) [] h k = refl
translate_fuel (suc f) zero [] h k = refl
translate_fuel (suc f) (suc g) [] h k = refl
translate_fuel zero g (c ∷ s) h k = absurd (omega arith)
translate_fuel (suc f) zero (c ∷ s) h k = absurd (omega arith)
translate_fuel (suc f) (suc g) (c ∷ s) h k =
    let shorter = next_node-shorter c s in
    ap (λ nodes. (next_node c s).0 ∷ nodes)
      (translate_fuel f g (next_node c s).1 (omega arith) (omega arith))

-- a character that stands for itself
abbrev pub is_plain : ℕ → Bool
is_plain c = not (nat_eq c star) && not (nat_eq c question) && not (nat_eq c backslash)

next_node-plain : (c : ℕ) (s : Text) → is_plain c ≡ true → next_node c s ≡ (literal c, s)
next_node-plain c s h = ground arith

pub translate-plain :
    (dir s : Text)
    → all is_plain dir ≡ true
    → translate (length (dir ++ s)) (dir ++ s) ≡ map literal dir ++ translate (length s) s
unfolding translate
translate-plain [] s h = refl
translate-plain (c ∷ dir) s h =
    rw (next_node-plain c (dir ++ s) (ground arith))
      (ap (λ nodes. literal c ∷ nodes) (translate-plain dir s (ground arith)))

pub full_match-literals :
    (dir : Text) (nodes : List Node) (s : Text)
    → full_match (map literal dir ++ nodes) s ≡ true
    → (rest : Text) × (s ≡ dir ++ rest) × (full_match nodes rest ≡ true)
unfolding full_match
full_match-literals [] nodes s h = (s, refl, h)
full_match-literals (c ∷ dir) nodes [] h = cc
full_match-literals (c ∷ dir) nodes (a ∷ s) h =
    let (rest, same, met) = full_match-literals dir nodes s (ground arith) in
    let e : a ≡ c = ground arith in (rest, cc, met)

pub full_match-append :
    (dir : Text) (nodes : List Node) (rest : Text)
    → full_match nodes rest ≡ true
    → full_match (map literal dir ++ nodes) (dir ++ rest) ≡ true
unfolding full_match
full_match-append [] nodes rest h = h
full_match-append (c ∷ dir) nodes rest h = ground (arith, full_match-append dir nodes rest h)

-- `p*` at the end
pub repeated-end : (p : ℕ → Bool) (s : Text) → repeated p (full_match []) s ≡ all p s
unfolding full_match
repeated-end p [] = refl
repeated-end p (c ∷ s) = ground (arith, repeated-end p s)

abbrev pub slashes : Text → ℕ
slashes [] = 0
slashes (c ∷ s) = let n = slashes s in if nat_eq c slash then suc n else n

-- the slashes that an expression asks for, and whether it can match no others
abbrev node_slashes : List Node → ℕ
node_slashes [] = 0
node_slashes (literal c ∷ nodes) = let n = node_slashes nodes in if nat_eq c slash then suc n else n
node_slashes (_ ∷ nodes) = node_slashes nodes

abbrev is_bounded : List Node → Bool
is_bounded [] = true
is_bounded (literal c ∷ nodes) = is_bounded nodes
is_bounded (one_within ∷ nodes) = is_bounded nodes
is_bounded (many_within ∷ nodes) = is_bounded nodes
is_bounded (anything ∷ nodes) = false
is_bounded (directories ∷ nodes) = false

-- no two stars stand side by side
abbrev pub has_single_stars : Text → Bool
has_single_stars [] = true
has_single_stars (c ∷ []) = true
has_single_stars (c ∷ d ∷ s) = not (nat_eq c star && nat_eq d star) && has_single_stars (d ∷ s)

repeated-slashes :
    (n : ℕ) (next : Text → Bool)
    → ((t : Text) → next t ≡ true → slashes t ≡ n)
    → (s : Text) → repeated within next s ≡ true
    → slashes s ≡ n
repeated-slashes n next same [] h = same [] h
repeated-slashes n next same (c ∷ s) h =
    ground (arith, same (c ∷ s), repeated-slashes n next same s)

pub full_match-slashes :
    (nodes : List Node) (s : Text)
    → is_bounded nodes ≡ true
    → full_match nodes s ≡ true
    → slashes s ≡ node_slashes nodes
unfolding full_match
full_match-slashes [] [] b h = refl
full_match-slashes [] (c ∷ s) b h = cc
full_match-slashes (literal a ∷ nodes) [] b h = cc
full_match-slashes (literal a ∷ nodes) (c ∷ s) b h = ground (arith, full_match-slashes nodes s b)
full_match-slashes (one_within ∷ nodes) [] b h = cc
full_match-slashes (one_within ∷ nodes) (c ∷ s) b h = ground (arith, full_match-slashes nodes s b)
full_match-slashes (many_within ∷ nodes) s b h =
    repeated-slashes (node_slashes nodes) (full_match nodes) (λ t. full_match-slashes nodes t b) s h
full_match-slashes (anything ∷ nodes) s b h = cc
full_match-slashes (directories ∷ nodes) s b h = cc

-- a pattern without two stars side by side asks for the slashes that it has
pub translate-bounded :
    (f : ℕ) (s : Text)
    → length s ≤ f
    → has_single_stars s ≡ true
    → (is_bounded (translate f s) ≡ true) × (node_slashes (translate f s) ≡ slashes s)
unfolding translate
translate-bounded zero [] h d = (refl, refl)
translate-bounded (suc f) [] h d = (refl, refl)
translate-bounded zero (c ∷ s) h d = absurd (omega arith)
translate-bounded (suc f) (c ∷ []) h d = ground (arith, translate-bounded f [])
translate-bounded (suc f) (c ∷ a ∷ s) h d = ground (arith, translate-bounded f (a ∷ s))
