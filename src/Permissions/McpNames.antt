-- ===== src/Permissions/McpNames.antt =====
-- The public names of MCP tools (capslock/tooling/tools/mcp.py) and how the permission strategy reads
-- them back (McpPermissionSpec.identity of capslock/tooling/permission_policy/specs.py).
use mathlib.Core.Option
use caps_lock.Prelude.{
  ℕ, Bool, true, not, ◌&&◌, ◌||◌, ◌≡◌, refl, Option, none, some, [], ◌∷◌, ◌++◌, map, arith,
  if◌then◌else◌, leb, nat_eq,
}
use caps_lock.Permissions.Patterns.{Text}

abbrev pub underscore : ℕ
underscore = 95

-- [A-Za-z0-9_]
abbrev is_word : ℕ → Bool
is_word c =
    (leb 65 c && leb c 90)
    || (leb 97 c && leb c 122)
    || (leb 48 c && leb c 57)
    || nat_eq c underscore

-- _name
unfoldable pub name : Text → Text
name value = map (λ c. if is_word c then c else underscore) value

-- "__"
abbrev pub separator : Text
separator = underscore ∷ underscore ∷ []

-- f"mcp__{_name(server)}__{_name(tool)}"
unfoldable pub public_name : Text → Text → Text
unfolding name
public_name server tool =
    b'm' ∷ b'c' ∷ b'p' ∷ (separator ++ (name server ++ (separator ++ name tool)))

abbrev is_double : ℕ → ℕ → Bool
is_double c d = nat_eq c underscore && nat_eq d underscore

abbrev put : ℕ → Text × Text → Text × Text
put c (before, after) = (c ∷ before, after)

-- the text before and after the first separator
unfoldable pub split_once : Text → Option (Text × Text)
split_once [] = none
split_once (c ∷ []) = none
split_once (c ∷ d ∷ s) =
    let rest = split_once (d ∷ s) in if is_double c d then some ([], s) else Option.map (put c) rest

-- name.split("__", 2), with three parts or not
abbrev three_parts : Text → Option (Text × Text) → Text × Text
three_parts whole none = ([], whole)
three_parts whole (some parts) = parts

abbrev after_first : Text → Option (Text × Text) → Text × Text
after_first whole none = ([], whole)
after_first whole (some (first, rest)) = three_parts whole (split_once rest)

-- the server and the tool
unfoldable pub identity : Text → Text × Text
unfolding split_once
identity whole = after_first whole (split_once whole)

-- no separator in the text, and no underscore at its end
abbrev pub has_no_separator : Text → Bool
has_no_separator [] = true
has_no_separator (c ∷ []) = not (nat_eq c underscore)
has_no_separator (c ∷ d ∷ s) = not (is_double c d) && has_no_separator (d ∷ s)

split_once-separator :
    (before after : Text)
    → has_no_separator before ≡ true
    → split_once (before ++ (separator ++ after)) ≡ some (before, after)
unfolding split_once
split_once-separator [] after h = refl
split_once-separator (c ∷ []) after h = ground arith
split_once-separator (c ∷ d ∷ s) after h = ground (arith, split_once-separator (d ∷ s) after)

-- The strategy reads a tool's server and name back from its public name, as they were written
-- there, when the written server holds no `__` and does not end in `_`.
pub identity-public_name :
    (server tool : Text)
    → has_no_separator (name server) ≡ true
    → identity (public_name server tool) ≡ (name server, name tool)
unfolding identity public_name
identity-public_name server tool h = rw (split_once-separator (name server) (name tool) h) refl
