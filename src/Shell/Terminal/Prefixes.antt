-- ===== src/Shell/Terminal/Prefixes.antt =====
-- The words that src/shell/terminal.rs offers begin with what was typed.
use s.Common.{
  ◌≡◌, refl, ap, sym, ◌∙◌, true, List, [], ◌∷◌, ◌++◌, some, Text, All, codes, Option-cases,
  Bool-cases, inl, inr, arith,
}
use s.Common.Chars.{strip_prefix, has_char}
use s.Shell.Terminal.Completion.{
  starts_with, complete, completions, completable_commands, show_subcommands, bookmark_subcommands,
  alias_subcommands,
}

-- A word is a text and something behind it.
abbrev pub Extends : Text → Text → Type 0
Extends typed word = (rest : Text) × (word ≡ typed ++ rest)

append_assoc : (xs ys zs : Text) → (xs ++ ys) ++ zs ≡ xs ++ (ys ++ zs)
append_assoc [] ys zs = refl
append_assoc (x ∷ xs) ys zs = ap (◌∷◌ x) (append_assoc xs ys zs)

strip_prefix-some :
    (prefix cs rest : Text) → strip_prefix prefix cs ≡ some rest → cs ≡ prefix ++ rest
unfolding strip_prefix
strip_prefix-some [] cs rest h = cc
strip_prefix-some (p ∷ ps) [] rest h = cc
strip_prefix-some (p ∷ ps) (c ∷ cs) rest h = ground (arith, h, strip_prefix-some ps cs rest)

starts_with-Extends : (prefix word : Text) → starts_with prefix word ≡ true → Extends prefix word
unfolding starts_with
starts_with-Extends prefix word h = elim (Option-cases (strip_prefix prefix word)) [
  | inl missing ↦ absurd (ground (arith, h, missing))
  | inr (rest, found) ↦ (rest, strip_prefix-some prefix word rest found)
]

complete-Extends :
    (command prefix typed : Text) (words : List Text)
    → typed ≡ command ++ prefix
    → All (Extends typed) (complete command words prefix)
unfolding complete
complete-Extends command prefix typed [] e = tt
complete-Extends command prefix typed (word ∷ words) e =
    elim (Bool-cases (starts_with prefix word)) [
      | inl right ↦
          let (rest, same) = starts_with-Extends prefix word right in
          rw right (
            (
              rest,
              ap (λ x. command ++ x) same
                  ∙ sym (append_assoc command prefix rest)
                  ∙ ap (λ x. x ++ rest) (sym e),
            ),
            complete-Extends command prefix typed words e,
          )
      | inr wrong ↦ rw wrong (complete-Extends command prefix typed words e)
    ]

-- Every word that is offered for a text begins with it.
pub completions-Extends : (typed : Text) → All (Extends typed) (completions typed)
unfolding completions
completions-Extends typed = elim (Option-cases (strip_prefix (codes "show ") typed)) [
  | inr (prefix, show) ↦ rw show (
      complete-Extends (codes "show ") prefix typed show_subcommands
        (strip_prefix-some (codes "show ") typed prefix show))
  | inl no_show ↦ rw no_show (elim (Option-cases (strip_prefix (codes "bookmark ") typed)) [
    | inr (prefix, bookmark) ↦ rw bookmark (
        complete-Extends (codes "bookmark ") prefix typed bookmark_subcommands
          (strip_prefix-some (codes "bookmark ") typed prefix bookmark))
    | inl no_bookmark ↦ rw no_bookmark (elim (Option-cases (strip_prefix (codes "alias ") typed)) [
      | inr (prefix, alias) ↦ rw alias (
          complete-Extends (codes "alias ") prefix typed alias_subcommands
            (strip_prefix-some (codes "alias ") typed prefix alias))
      | inl no_alias ↦ rw no_alias (elim (Bool-cases (has_char b' ' typed)) [
        | inl spaced ↦ rw spaced tt
        | inr plain ↦ rw plain (complete-Extends [] typed typed completable_commands refl)
      ])
    ])
  ])
]
