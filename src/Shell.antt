-- ===== src/Shell.antt =====
-- capslock/shell/assessment.py: which shell commands are denied, asked about or allowed. The syntax
-- comes from the Tree-sitter parser of capslock/shell/parser.py and the words from `shlex`; the
-- regular expressions are parameters, each under its name.
pub mod Allowed
use Prim.Native.String.{slice, len}
use text.Mathlib.Text.{starts_with, find?}
use caps_lock.Prelude.{
  ℕ, zero, suc, Bool, true, false, not, ◌&&◌, ◌||◌, Option, none, some, List, [], ◌∷◌, ◌++◌, String,
  if◌then◌else◌, mem, any, all, ◌==◌, string_eq, nat_eq, length,
}

-- class ShellSegment
pub record ShellSegment : Type 0 where
  pub argv : List String
  pub operator_before : Option String

-- class ShellSyntax
pub record ShellSyntax : Type 0 where
  pub commands : List String
  pub segments : List ShellSegment
  pub redirects : List String
  pub dynamic : List String
  pub has_error : Bool
  pub parser_available : Bool

pub data ShellBehavior : Type 0 where
  allow ask deny : ShellBehavior

-- the regular expressions: those searched in the command, and those that a whole argument matches
pub record Patterns : Type 0 where
  -- the command is blank, or has a NUL or a line break
  pub is_control : String → Bool
  pub kernel_path : String → Bool
  pub broad_deletion : String → Bool
  pub download_and_run : String → Bool
  pub root_ownership : String → Bool
  pub dash_number : String → Bool
  pub count : String → Bool
  pub wc_flags : String → Bool
  pub uniq_flags : String → Bool

-- _HARD_DENY_WORDS
abbrev pub hard_deny_words : List String
hard_deny_words =
    "sudo" ∷ "su" ∷ "doas" ∷ "mount" ∷ "umount" ∷ "nsenter" ∷ "unshare" ∷ "chroot" ∷ "pivot_root"
    ∷ "modprobe" ∷ "insmod" ∷ "rmmod" ∷ "mkfs" ∷ "fdisk" ∷ "parted" ∷ "swapon" ∷ "swapoff" ∷ []

-- _READ_ONLY_GIT_COMMANDS
abbrev pub read_only_git_commands : List String
read_only_git_commands = "status" ∷ "diff" ∷ "log" ∷ "show" ∷ "rev-parse" ∷ "ls-files" ∷ []

-- _UNSAFE_GIT_OPTIONS
abbrev unsafe_git_options : List String
unsafe_git_options =
    "--ext-diff" ∷ "--no-index" ∷ "--output" ∷ "--textconv" ∷ "--exec-path" ∷ "--git-dir"
    ∷ "--work-tree" ∷ "--config-env" ∷ []

abbrev unsafe_git_prefixes : List String
unsafe_git_prefixes =
    "--output" ∷ "--ext-diff=" ∷ "--textconv=" ∷ "--exec-path=" ∷ "--git-dir=" ∷ "--work-tree="
    ∷ "--config-env=" ∷ []

-- value.startswith(prefixes)
abbrev pub starts_with_any : List String → String → Bool
starts_with_any prefixes value = any (λ p. starts_with value p) prefixes

abbrev pub is_unsafe_git_value : String → Bool
is_unsafe_git_value value =
    mem value ("-c" ∷ "-C" ∷ [])
    || starts_with_any ("-c=" ∷ "-C=" ∷ []) value
    || mem value unsafe_git_options
    || starts_with_any unsafe_git_prefixes value

abbrev pub git_command : List String → Bool
git_command [] = false
git_command (name ∷ values) =
    mem name read_only_git_commands && not (any is_unsafe_git_value values)

-- `_read_only_git`, of the arguments behind "git"
unfoldable pub read_only_git : List String → Bool
read_only_git [] = false
read_only_git (name ∷ values) =
    if name == "--no-pager" then git_command values else git_command (name ∷ values)

module _ (patterns : Patterns) where
  abbrev counted_option : String → Bool
  counted_option value =
      starts_with_any ("--lines=" ∷ "--bytes=" ∷ []) value
      && patterns.count (slice value 8 (len value))

  -- the loop over the arguments of `head` and `tail`
  unfoldable pub head_arguments : List String → Bool
  head_arguments [] = true
  head_arguments (value ∷ []) =
      if patterns.dash_number value
      then true
      else if mem value ("-n" ∷ "--lines" ∷ "-c" ∷ "--bytes" ∷ [])
      then false
      else counted_option value
  head_arguments (value ∷ next ∷ rest) =
      let after_one = head_arguments (next ∷ rest) in
      let after_two = head_arguments rest in
      if patterns.dash_number value
      then after_one
      else if mem value ("-n" ∷ "--lines" ∷ "-c" ∷ "--bytes" ∷ [])
      then patterns.count next && after_two
      else counted_option value && after_one

  abbrev wc_argument : String → Bool
  wc_argument value =
      patterns.wc_flags value
      || mem value ("--bytes" ∷ "--chars" ∷ "--lines" ∷ "--max-line-length" ∷ "--words" ∷ [])

  abbrev uniq_argument : String → Bool
  uniq_argument value =
      patterns.uniq_flags value
      || mem value ("--count" ∷ "--repeated" ∷ "--ignore-case" ∷ "--unique" ∷ [])

  unfoldable pub stdin_filter : String → List String → Bool
  unfolding head_arguments
  stdin_filter command arguments =
      if command == "head" || command == "tail"
      then head_arguments arguments
      else if command == "wc"
      then all wc_argument arguments
      else all uniq_argument arguments

  abbrev pub is_piped : Option String → Bool
  is_piped none = false
  is_piped (some operator) = operator == "|"

  abbrev pub filters : List String
  filters = "head" ∷ "tail" ∷ "wc" ∷ "uniq" ∷ []

  -- one round of the loop of `_read_only_segments`, at the segment's index
  unfoldable pub read_only_segment : ℕ → Option String → List String → Bool
  unfolding stdin_filter read_only_git
  read_only_segment index operator [] = false
  read_only_segment index operator (command ∷ arguments) =
      if command == "pwd"
      then nat_eq (length (command ∷ arguments)) 1 && not (is_piped operator)
      else if command == "git"
      then not (is_piped operator) && read_only_git arguments
      else if mem command filters
      then not (nat_eq index 0 || not (is_piped operator)) && stdin_filter command arguments
      else false

  unfoldable pub read_only_from : ℕ → List ShellSegment → Bool
  unfolding read_only_segment
  read_only_from index [] = true
  read_only_from index (segment ∷ segments) =
      let rest = read_only_from (suc index) segments in
      read_only_segment index segment.operator_before segment.argv && rest

  unfoldable pub read_only_segments : List ShellSegment → Bool
  unfolding read_only_from
  read_only_segments [] = false
  read_only_segments (segment ∷ segments) = read_only_from 0 (segment ∷ segments)

  abbrev is_found : Option ℕ → Bool
  is_found none = false
  is_found (some i) = true

  abbrev kernel_token : String → Bool
  kernel_token token =
      any (λ marker. is_found (find? token marker)) ("/dev/" ∷ "/proc/" ∷ "/sys/" ∷ [])

  abbrev is_empty {ℓ} : {A : Type ℓ} → List A → Bool
  is_empty [] = true
  is_empty (x ∷ xs) = false

  -- the verdict on the words that `shlex` makes of the command
  unfoldable pub assess_words : String → ShellSyntax → List String → ShellBehavior
  unfolding read_only_segments
  assess_words command syntax words =
      if is_empty words
      then ask
      else if any (λ item. mem item hard_deny_words) (words ++ syntax.commands)
      then deny
      else if any kernel_token words
      then deny
      else if patterns.root_ownership command
      then deny
      else if not syntax.parser_available
      then ask
      else if syntax.has_error
      then ask
      else if not (is_empty syntax.dynamic)
      then ask
      else if not (is_empty syntax.redirects)
      then ask
      else if read_only_segments syntax.segments
      then allow
      else ask

  -- `assess_shell`, with the parser's syntax and `shlex`'s words, if it finds any
  unfoldable pub assess_shell : String → ShellSyntax → Option (List String) → ShellBehavior
  unfolding assess_words
  assess_shell command syntax words =
      if patterns.is_control command
      then ask
      else if patterns.kernel_path command
      then deny
      else if patterns.broad_deletion command
      then deny
      else if patterns.download_and_run command
      then deny
      else elim words [ none ↦ ask | some tokens ↦ assess_words command syntax tokens ]
