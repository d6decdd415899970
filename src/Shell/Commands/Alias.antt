-- ===== src/Shell/Commands/Alias.antt =====
-- src/shell/commands/alias_cmd.rs
use s.Common.{
  Bool, true, false, ◌||◌, not, List, [], ◌∷◌, ◌++◌, Option, none, some, if◌then◌else◌, Text,
  text_key, Dict, codes,
}
use s.Common.Maps.{insert, remove, contains_key}
use s.Common.Chars.{join, same_text}
use s.Acl.Port.{split_once}
use s.Shell.Context.{
  ShellContext, CommandResult, output, line, crlf, color, green, yellow, cyan, sort_by_key,
}

-- One line of the list.
abbrev alias_line : Bool → Text → Text → Text
alias_line colors name command =
    codes "  " ++ color yellow name colors ++ codes " = '" ++ command ++ codes "'" ++ crlf

abbrev alias_lines : Bool → Dict Text Text → Text
alias_lines colors [] = []
alias_lines colors ((name, command) ∷ m) = alias_line colors name command ++ alias_lines colors m

abbrev no_entries : Dict Text Text → Bool
no_entries [] = true
no_entries (e ∷ m) = false

abbrev is_empty : Text → Bool
is_empty [] = true
is_empty (c ∷ cs) = false

-- `remove`, `rm` and `del`.
abbrev pub is_remove : Text → Bool
is_remove arg =
    same_text arg (codes "remove") || same_text arg (codes "rm") || same_text arg (codes "del")

-- The command that may span several arguments.
unfoldable pub full_command : Text → List Text → Text
unfolding join
full_command command [] = command
full_command command (a ∷ rest) =
    if is_empty command
    then join (codes " ") (a ∷ rest)
    else command ++ codes " " ++ join (codes " ") (a ∷ rest)

module _ {Net : Type 0} where
  unfoldable pub alias_list : ShellContext Net → CommandResult
  unfolding color sort_by_key
  alias_list ctx =
      if no_entries ctx.aliases
      then line (codes "No aliases defined")
      else output (
          color cyan (codes "Aliases:") ctx.colors
          ++ crlf
          ++ alias_lines ctx.colors (sort_by_key ctx.aliases))

  unfoldable pub alias_set : Text → Text → ShellContext Net → ShellContext Net × CommandResult
  unfolding insert contains_key color
  alias_set name command ctx =
      let existed = contains_key name ctx.aliases in
      let action = if existed then codes "Updated" else codes "Added" in
      (
        record ctx { aliases = insert name command ctx.aliases },
        line (
            color green action ctx.colors
            ++ codes " alias: "
            ++ color yellow name ctx.colors
            ++ codes " = '"
            ++ command
            ++ codes "'"),
      )

  unfoldable pub alias_remove : List Text → ShellContext Net → ShellContext Net × CommandResult
  unfolding remove contains_key color
  alias_remove [] ctx = (ctx, line (codes "Usage: alias remove <name>"))
  alias_remove (name ∷ args) ctx =
      if contains_key name ctx.aliases
      then (
        record ctx { aliases = remove name ctx.aliases },
        line (color green (codes "Removed") ctx.colors ++ codes " alias '" ++ name ++ codes "'"),
      )
      else (ctx, line (codes "Alias '" ++ name ++ codes "' not found"))

  -- An argument with or without `=`.
  unfoldable pub alias_define :
      Option (Text × Text) → List Text → ShellContext Net → ShellContext Net × CommandResult
  unfolding alias_set full_command
  alias_define none rest ctx =
      (ctx, line (codes "Usage: alias [<name>=<command>] | alias remove <name>"))
  alias_define (some (name, command)) rest ctx =
      if is_empty name || is_empty (full_command command rest)
      then (ctx, line (codes "Usage: alias <name>=<command>"))
      else alias_set name (full_command command rest) ctx

  unfoldable pub run_permitted : List Text → ShellContext Net → ShellContext Net × CommandResult
  unfolding alias_list alias_remove alias_define split_once
  run_permitted [] ctx = (ctx, alias_list ctx)
  run_permitted (first ∷ rest) ctx =
      if is_remove first
      then alias_remove rest ctx
      else alias_define (split_once b'=' first) rest ctx

  unfoldable pub run : List Text → ShellContext Net → ShellContext Net × CommandResult
  run args ctx =
      if not ctx.permissions.alias_command
      then (ctx, line (codes "Permission denied: alias"))
      else run_permitted args ctx
