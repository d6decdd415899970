-- ===== src/Shell/Terminal/Completion.antt =====
-- Completion of src/shell/terminal.rs: the words that go on as the line does, and what they share.
use s.Common.{
  ℕ, ◌+◌, Bool, List, [], ◌∷◌, ◌++◌, Option, none, some, ◌==◌, if◌then◌else◌, Text, min, length,
  take, retain, map, codes, is_some,
}
use s.Common.Chars.{strip_prefix, has_char}

abbrev pub completable_commands : List Text
completable_commands =
    codes "alias"
    ∷ codes "bookmark"
    ∷ codes "cat"
    ∷ codes "cd"
    ∷ codes "clear"
    ∷ codes "echo"
    ∷ codes "env"
    ∷ codes "exit"
    ∷ codes "help"
    ∷ codes "hostname"
    ∷ codes "id"
    ∷ codes "logout"
    ∷ codes "ls"
    ∷ codes "ping"
    ∷ codes "printenv"
    ∷ codes "pwd"
    ∷ codes "resolve"
    ∷ codes "show"
    ∷ codes "test"
    ∷ codes "uname"
    ∷ codes "whoami"
    ∷ []

abbrev pub show_subcommands : List Text
show_subcommands =
    codes "acl"
    ∷ codes "bandwidth"
    ∷ codes "connections"
    ∷ codes "fingerprint"
    ∷ codes "history"
    ∷ codes "quota"
    ∷ codes "status"
    ∷ []

abbrev pub bookmark_subcommands : List Text
bookmark_subcommands = codes "add" ∷ codes "list" ∷ codes "remove" ∷ []

abbrev pub alias_subcommands : List Text
alias_subcommands = codes "remove" ∷ []

unfoldable pub starts_with : Text → Text → Bool
unfolding strip_prefix
starts_with prefix cs = is_some (strip_prefix prefix cs)

unfoldable pub complete : Text → List Text → Text → List Text
unfolding starts_with
complete command subcommands prefix =
    map (λ c. command ++ c) (retain (starts_with prefix) subcommands)

unfoldable pub completions : Text → List Text
unfolding complete strip_prefix
completions trimmed = elim (strip_prefix (codes "show ") trimmed) [
  | some prefix ↦ complete (codes "show ") show_subcommands prefix
  | none ↦ elim (strip_prefix (codes "bookmark ") trimmed) [
    | some prefix ↦ complete (codes "bookmark ") bookmark_subcommands prefix
    | none ↦ elim (strip_prefix (codes "alias ") trimmed) [
      | some prefix ↦ complete (codes "alias ") alias_subcommands prefix
      | none ↦ if has_char b' ' trimmed then [] else complete [] completable_commands trimmed
    ]
  ]
]

-- The first place, counted from `i`, where two texts differ.
unfoldable pub first_mismatch : ℕ → Text → Text → Option ℕ
first_mismatch i [] ys = none
first_mismatch i (x ∷ xs) [] = none
first_mismatch i (x ∷ xs) (y ∷ ys) =
    let rest = first_mismatch (i + 1) xs ys in if x == y then rest else some i

unfoldable pub shared_length : Text → ℕ → List Text → ℕ
unfolding first_mismatch
shared_length first len [] = len
shared_length first len (t ∷ ts) =
    let shorter = min len (length t) in
    shared_length first
      (elim (first_mismatch 0 first t) [ none ↦ shorter | some i ↦ min shorter i ]) ts

unfoldable pub common_prefix : List Text → Text
unfolding shared_length
common_prefix [] = []
common_prefix (first ∷ rest) = take (shared_length first (length first) rest) first
