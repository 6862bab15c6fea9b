-- ===== src/Shell/Allowed.antt =====
-- What an allowed command is.
use caps_lock.Prelude.{
  ◌≡◌, ◌≢◌, true, false, Option, some, List, [], ◌∷◌, ◌++◌, String, mem, any, All, string_eq,
}
use caps_lock.Shell.{
  ShellSegment, ShellSyntax, Patterns, hard_deny_words, read_only_git_commands, is_unsafe_git_value,
  is_piped, filters, stdin_filter,
}

-- a git command line that only reads: a reading subcommand, maybe behind --no-pager, without an
-- option that writes, that runs a program or that leaves the repository
pub data IsReadingGit : List String → Type 0 where
  plain :
      (name : String) (values : List String)
      → mem name read_only_git_commands ≡ true
      → any is_unsafe_git_value values ≡ false
      → IsReadingGit (name ∷ values)
  no_pager :
      (name : String) (values : List String)
      → mem name read_only_git_commands ≡ true
      → any is_unsafe_git_value values ≡ false
      → IsReadingGit ("--no-pager" ∷ name ∷ values)

module _ (patterns : Patterns) where
  -- the three kinds of segments: `pwd`, a reading git, and a filter of what a pipe brings
  pub data IsReading : ShellSegment → Type 0 where
    pwd :
        (operator : Option String)
        → is_piped patterns operator ≡ false
        → IsReading (record { argv = "pwd" ∷ []; operator_before = operator })
    git :
        (operator : Option String) (arguments : List String)
        → is_piped patterns operator ≡ false
        → IsReadingGit arguments
        → IsReading (record { argv = "git" ∷ arguments; operator_before = operator })
    filter :
        (command : String) (arguments : List String)
        → mem command (filters patterns) ≡ true
        → stdin_filter patterns command arguments ≡ true
        → IsReading (record { argv = command ∷ arguments; operator_before = some "|" })

  -- What an allowed command is: the parser was there and read it whole; nothing in it is expanded,
  -- substituted, redirected or run in the background; no word and no command of it is one that
  -- raises privileges; it has a segment, and every segment only reads.
  pub record IsSafe (syntax : ShellSyntax) (words : List String) : Type 0 where
    pub parsed : (syntax.parser_available ≡ true) × (syntax.has_error ≡ false)
    pub static : (syntax.dynamic ≡ []) × (syntax.redirects ≡ [])
    pub harmless : any (λ item. mem item hard_deny_words) (words ++ syntax.commands) ≡ false
    pub nonempty : syntax.segments ≢ []
    pub reading : All IsReading syntax.segments
