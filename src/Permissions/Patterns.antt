-- ===== src/Permissions/Patterns.antt =====
-- `_path_glob_match` of capslock/tooling/permission_policy/specs.py: a path pattern becomes a regular
-- expression, which has to match the whole path. A text is the list of its code points. The
-- patterns that `re` is given are the five forms of `Node`, with the meaning of Python's `re`: a dot
-- is any character but a line feed, and `[^/]` any but a slash.
pub mod Translating
pub mod Subtree
use Prim.Native.Char.{code}
use Prim.Native.String
use caps_lock.Prelude.{
  ℕ, zero, suc, Bool, true, false, not, ◌&&◌, ◌||◌, Option, none, some, List, [], ◌∷◌, map, String,
  if◌then◌else◌, nat_eq, length, any, ◌==◌, number_eq,
}

abbrev pub Text : Type 0
Text = List ℕ

abbrev pub codes : String → Text
codes String.[] = []
codes (String.◌∷◌ c s) = code c ∷ codes s

abbrev pub slash : ℕ
slash = 47

abbrev pub star : ℕ
star = 42

abbrev pub question : ℕ
question = 63

abbrev pub dot : ℕ
dot = 46

abbrev pub backslash : ℕ
backslash = 92

abbrev pub line_feed : ℕ
line_feed = 10

-- .replace("\\", "/")
abbrev pub forward : ℕ → ℕ
forward c = if nat_eq c backslash then slash else c

-- .removeprefix("./")
abbrev pub remove_dot : Text → Text
remove_dot (c ∷ d ∷ s) = if nat_eq c dot && nat_eq d slash then s else c ∷ d ∷ s
remove_dot s = s

-- or "."
abbrev pub or_dot : Text → Text
or_dot [] = dot ∷ []
or_dot (c ∷ s) = c ∷ s

unfoldable pub normalized : Text → Text
normalized path = or_dot (remove_dot (map forward path))

abbrev put_first : ℕ → List Text → List Text
put_first c [] = (c ∷ []) ∷ []
put_first c (part ∷ parts) = (c ∷ part) ∷ parts

-- the components between the slashes; PurePosixPath.parts leaves out the empty ones and the dots
unfoldable pub components : Text → List Text
components [] = [] ∷ []
components (c ∷ s) =
    let rest = components s in if nat_eq c slash then [] ∷ rest else put_first c rest

abbrev is_parent : Text → Bool
is_parent (c ∷ d ∷ []) = nat_eq c dot && nat_eq d dot
is_parent _ = false

unfoldable pub has_parent : Text → Bool
unfolding components
has_parent s = any is_parent (components s)

abbrev pub is_absolute : Text → Bool
is_absolute [] = false
is_absolute (c ∷ s) = nat_eq c slash

-- a character by itself, `[^/]`, `[^/]*`, `.*` and `(?:.*/)?`
pub data Node : Type 0 where
  literal : ℕ → Node
  one_within many_within anything directories : Node

abbrev pub after_two_stars : Text → Node × Text
after_two_stars [] = (anything, [])
after_two_stars (c ∷ s) = if nat_eq c slash then (directories, s) else (anything, c ∷ s)

abbrev pub after_star : Text → Node × Text
after_star [] = (many_within, [])
after_star (c ∷ s) = if nat_eq c star then after_two_stars s else (many_within, c ∷ s)

-- one round of the loop over the pattern: what is added to the expression, and what is left
abbrev pub next_node : ℕ → Text → Node × Text
next_node c s =
    if nat_eq c star
    then after_star s
    else if nat_eq c question
    then (one_within, s)
    else (literal c, s)

-- `while index < len(pattern)`; a round leaves less of the pattern, so its length is enough fuel
unfoldable pub translate : ℕ → Text → List Node
translate zero s = []
translate (suc fuel) [] = []
translate (suc fuel) (c ∷ s) = let (node, rest) = next_node c s in node ∷ translate fuel rest

-- `p*` and then `next`
abbrev pub repeated : (ℕ → Bool) → (Text → Bool) → Text → Bool
repeated p next [] = next []
repeated p next (c ∷ s) = next (c ∷ s) || (p c && repeated p next s)

abbrev pub after_slash : (Text → Bool) → Text → Bool
after_slash next [] = false
after_slash next (c ∷ s) = nat_eq c slash && next s

abbrev pub within : ℕ → Bool
within c = not (nat_eq c slash)

abbrev pub on_line : ℕ → Bool
on_line c = not (nat_eq c line_feed)

-- re.fullmatch
unfoldable pub full_match : List Node → Text → Bool
full_match [] [] = true
full_match [] (c ∷ s) = false
full_match (literal a ∷ nodes) [] = false
full_match (literal a ∷ nodes) (c ∷ s) = nat_eq c a && full_match nodes s
full_match (one_within ∷ nodes) [] = false
full_match (one_within ∷ nodes) (c ∷ s) = within c && full_match nodes s
full_match (many_within ∷ nodes) s = repeated within (full_match nodes) s
full_match (anything ∷ nodes) s = repeated on_line (full_match nodes) s
full_match (directories ∷ nodes) s =
    full_match nodes s || repeated on_line (after_slash (full_match nodes)) s

unfoldable pub path_glob_match : Text → Text → Bool
unfolding normalized has_parent translate full_match
path_glob_match path pattern =
    let goal = normalized pattern in
    if is_absolute goal || has_parent goal
    then false
    else full_match (translate (length goal) goal) (normalized path)
