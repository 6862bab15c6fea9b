-- ===== src/Tests/ShellCases.antt =====
-- capslock/shell/assessment.py: `git status | head -3`, with the regular expressions as they answer
-- for it.
use caps_lock.Prelude.{◌≡◌, refl, true, false, some, none, List, [], ◌∷◌, String, ◌==◌, string_eq}
use caps_lock.Shell.{ShellSyntax, Patterns, ask, deny, assess_shell}

abbrev patterns : Patterns
patterns = record {
  is_control = λ c. false;
  kernel_path = λ c. c == "cat /proc/1";
  broad_deletion = λ c. false;
  download_and_run = λ c. false;
  root_ownership = λ c. false;
  dash_number = λ v. v == "-3";
  count = λ v. v == "3";
  wc_flags = λ v. v == "-l";
  uniq_flags = λ v. v == "-c";
}

abbrev syntax : ShellSyntax
syntax = record {
  commands = "git" ∷ "head" ∷ [];
  segments =
      record { argv = "git" ∷ "status" ∷ []; operator_before = none }
      ∷ record { argv = "head" ∷ "-3" ∷ []; operator_before = some "|" }
      ∷ [];
  redirects = [];
  dynamic = [];
  has_error = false;
  parser_available = true;
}

abbrev words : List String
words = "git" ∷ "status" ∷ "|" ∷ "head" ∷ "-3" ∷ []

-- a filter that nothing is piped into is asked about, and a word that raises privileges denied
is_asked :
    assess_shell patterns "head -3"
      (record syntax {
        segments = record { argv = "head" ∷ "-3" ∷ []; operator_before = none } ∷ [];
      })
      (some words)
    ≡ ask
unfolding assess_shell
is_asked = refl

is_denied : assess_shell patterns "sudo ls" syntax (some ("sudo" ∷ "ls" ∷ [])) ≡ deny
unfolding assess_shell
is_denied = refl
