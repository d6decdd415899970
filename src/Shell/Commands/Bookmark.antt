-- ===== src/Shell/Commands/Bookmark.antt =====
-- src/shell/commands/bookmark.rs
use s.Common.{
  Bool, true, false, ◌||◌, not, List, [], ◌∷◌, ◌++◌, if◌then◌else◌, Text, text_key, Dict, codes,
}
use s.Common.Maps.{insert, remove, contains_key}
use s.Common.Chars.{has_char, same_text}
use s.Shell.Context.{
  ShellContext, CommandResult, output, line, crlf, color, green, yellow, cyan, sort_by_key,
}

abbrev bookmark_lines : Bool → Dict Text Text → Text
bookmark_lines colors [] = []
bookmark_lines colors ((name, target) ∷ m) =
    codes "  "
    ++ color yellow name colors
    ++ codes " -> "
    ++ target
    ++ crlf
    ++ bookmark_lines colors m

abbrev no_entries : Dict Text Text → Bool
no_entries [] = true
no_entries (e ∷ m) = false

abbrev usage : Text
usage = codes "Usage: bookmark <add|list|remove> [args...]"

module _ {Net : Type 0} where
  unfoldable pub bookmark_add : List Text → ShellContext Net → ShellContext Net × CommandResult
  unfolding insert contains_key color
  bookmark_add [] ctx = (ctx, line (codes "Usage: bookmark add <name> <host:port>"))
  bookmark_add (name ∷ []) ctx = (ctx, line (codes "Usage: bookmark add <name> <host:port>"))
  bookmark_add (name ∷ target ∷ args) ctx =
      let action = if contains_key name ctx.bookmarks then codes "Updated" else codes "Added" in
      if has_char b':' target
      then (
        record ctx { bookmarks = insert name target ctx.bookmarks },
        line (
            color green action ctx.colors
            ++ codes " bookmark "
            ++ color cyan name ctx.colors
            ++ codes " -> "
            ++ target),
      )
      else (ctx, line (codes "Invalid target '" ++ target ++ codes "'. Expected format: host:port"))

  unfoldable pub bookmark_list : ShellContext Net → CommandResult
  unfolding color sort_by_key
  bookmark_list ctx =
      if no_entries ctx.bookmarks
      then line (codes "No bookmarks defined")
      else output (
          color cyan (codes "Bookmarks:") ctx.colors
          ++ crlf
          ++ bookmark_lines ctx.colors (sort_by_key ctx.bookmarks))

  unfoldable pub bookmark_remove : List Text → ShellContext Net → ShellContext Net × CommandResult
  unfolding remove contains_key color
  bookmark_remove [] ctx = (ctx, line (codes "Usage: bookmark remove <name>"))
  bookmark_remove (name ∷ args) ctx =
      if contains_key name ctx.bookmarks
      then (
        record ctx { bookmarks = remove name ctx.bookmarks },
        line (color green (codes "Removed") ctx.colors ++ codes " bookmark '" ++ name ++ codes "'"),
      )
      else (ctx, line (codes "Bookmark '" ++ name ++ codes "' not found"))

  unfoldable pub subcommand : Text → List Text → ShellContext Net → ShellContext Net × CommandResult
  unfolding bookmark_add bookmark_list bookmark_remove
  subcommand name args ctx =
      if same_text name (codes "add")
      then bookmark_add args ctx
      else if same_text name (codes "list") || same_text name (codes "ls")
      then (ctx, bookmark_list ctx)
      else if same_text name (codes "remove")
          || same_text name (codes "rm")
          || same_text name (codes "del")
      then bookmark_remove args ctx
      else (
        ctx,
        line (codes "bookmark: unknown subcommand '" ++ name ++ codes "'" ++ crlf ++ usage),
      )

  unfoldable pub run : List Text → ShellContext Net → ShellContext Net × CommandResult
  unfolding subcommand
  run args ctx =
      if not ctx.permissions.bookmark_command
      then (ctx, line (codes "Permission denied: bookmark"))
      else elim args [ [] ↦ (ctx, line usage) | name ∷ rest ↦ subcommand name rest ctx ]
