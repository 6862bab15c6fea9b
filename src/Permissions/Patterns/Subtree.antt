-- ===== src/Permissions/Patterns/Subtree.antt =====
-- Which paths a pattern matches: a directory's subtree, and no more directories than it names.
use caps_lock.Permissions.Patterns.Translating.{
  is_plain, translate-plain, full_match-literals, full_match-append, repeated-end, slashes,
  full_match-slashes, has_single_stars, translate-bounded,
}
use caps_lock.Prelude.{
  ◌<◌, Bool, true, false, ◌||◌, List, [], ◌∷◌, ◌++◌, map, ◌≡◌, ◌↔◌, refl, sym, ap, ◌∙◌, inl, inr,
  Bool-cases, nat_eq, length, all, any, arith,
}
use caps_lock.Permissions.Patterns.{
  Text, slash, star, is_parent, forward, remove_dot, or_dot, normalized, components, has_parent,
  is_absolute, literal, anything, translate, full_match, on_line, path_glob_match,
}

-- `/**`
abbrev pub subtree : Text
subtree = slash ∷ star ∷ star ∷ []

-- a relative directory that is written as `normalized` would write it, without wildcards
pub record IsDirectory (dir : Text) : Type 0 where
  pub plain : all is_plain dir ≡ true
  pub relative : is_absolute dir ≡ false
  pub no_parent : has_parent dir ≡ false
  pub no_dot : or_dot (remove_dot (dir ++ subtree)) ≡ dir ++ subtree
  pub named : 0 < length dir

map-forward : (dir : Text) → all is_plain dir ≡ true → map forward (dir ++ subtree) ≡ dir ++ subtree
map-forward [] h = refl
map-forward (c ∷ dir) h = ground (arith, map-forward dir)

components-cons : (s : Text) → (part : Text) × (parts : List Text) × (components s ≡ part ∷ parts)
unfolding components
components-cons [] = ([], [], refl)
components-cons (c ∷ s) =
    let (part, parts, e) = components-cons s in
    elim (Bool-cases (nat_eq c slash)) [
      | inl h ↦ ([], components s, rw h)
      | inr h ↦ (c ∷ part, parts, rw h (rw e))
    ]

components-slash : (dir s : Text) → components (dir ++ slash ∷ s) ≡ components dir ++ components s
unfolding components
components-slash [] s = refl
components-slash (c ∷ dir) s =
    let (part, parts, e) = components-cons dir in ground (arith, components-slash dir s)

any-append {ℓ} :
    {A : Type ℓ} (p : A → Bool) (xs ys : List A) → any p (xs ++ ys) ≡ (any p xs || any p ys)
any-append p [] ys = refl
any-append p (x ∷ xs) ys = ground (arith, any-append p xs ys)

or_false : (b : Bool) → (b || false) ≡ b
or_false true = refl
or_false false = refl

has_parent-subtree : (dir : Text) → has_parent (dir ++ subtree) ≡ has_parent dir
unfolding has_parent components
has_parent-subtree dir =
    ap (any is_parent) (components-slash dir (star ∷ star ∷ []))
    ∙ (any-append is_parent (components dir) (components (star ∷ star ∷ [])) ∙ or_false _)

is_absolute-subtree : (dir : Text) → 0 < length dir → is_absolute (dir ++ subtree) ≡ is_absolute dir
is_absolute-subtree [] h = absurd (omega arith)
is_absolute-subtree (c ∷ dir) h = refl

-- what the pattern of a subtree becomes
path_glob_match-nodes :
    (path dir : Text)
    → IsDirectory dir
    → path_glob_match path (dir ++ subtree)
      ≡ full_match (map literal dir ++ (literal slash ∷ anything ∷ [])) (normalized path)
unfolding path_glob_match normalized translate
path_glob_match-nodes path dir d = rw (map-forward dir d.plain) (
    rw d.no_dot (
      rw (is_absolute-subtree dir d.named) (
        rw (has_parent-subtree dir) (
          rw d.relative (
            rw d.no_parent (
              ap (λ nodes. full_match nodes (normalized path))
                (translate-plain dir subtree d.plain)))))))

tail-match :
    (rest : Text)
    → full_match (literal slash ∷ anything ∷ []) rest ≡ true
    → (below : Text) × (rest ≡ slash ∷ below) × (all on_line below ≡ true)
unfolding full_match
tail-match [] h = cc
tail-match (c ∷ below) h =
    let e : c ≡ slash = ground arith in (below, cc, ground (arith, repeated-end on_line below))

match-tail :
    (below : Text)
    → all on_line below ≡ true
    → full_match (literal slash ∷ anything ∷ []) (slash ∷ below) ≡ true
unfolding full_match
match-tail below h = ground (arith, repeated-end on_line below)

-- The pattern `dir/**`, of a relative directory without wildcards, matches exactly the paths under
-- the directory in which nothing after the directory is a line feed: the path, as it is normalized,
-- is the directory, a slash and such a rest.
pub path_glob_match-subtree :
    (path dir : Text)
    → IsDirectory dir
    → (path_glob_match path (dir ++ subtree) ≡ true)
      ↔ ((below : Text) × (normalized path ≡ dir ++ (slash ∷ below)) × (all on_line below ≡ true))
path_glob_match-subtree path dir d = (
  λ h.
      let (rest, same, met) =
        full_match-literals dir (literal slash ∷ anything ∷ []) (normalized path)
          (sym (path_glob_match-nodes path dir d) ∙ h) in
      let (below, e, lines) = tail-match rest met in (below, cc, lines),
  λ (below, e, lines).
      path_glob_match-nodes path dir d
      ∙ rw e (
          full_match-append dir (literal slash ∷ anything ∷ []) (slash ∷ below)
            (match-tail below lines)),
)

-- A pattern in which no two stars stand side by side matches only paths with as many slashes as it
-- has, both as they are normalized: `*` and `?` never reach into another directory.
pub path_glob_match-slashes :
    (path pattern : Text)
    → has_single_stars (normalized pattern) ≡ true
    → path_glob_match path pattern ≡ true
    → slashes (normalized path) ≡ slashes (normalized pattern)
unfolding path_glob_match
path_glob_match-slashes path pattern single h =
    let goal = normalized pattern in
    let (bounded, same) = translate-bounded (length goal) goal (omega arith) single in
    let met : full_match (translate (length goal) goal) (normalized path) ≡ true = ground arith in
    full_match-slashes (translate (length goal) goal) (normalized path) bounded met ∙ same
