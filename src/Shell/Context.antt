-- ===== src/Shell/Context.antt =====
-- The context of src/shell/context.rs, as far as the modelled commands read it, with the result of
-- a command of src/shell/commands/mod.rs and the colours of src/shell/commands/colors.rs.
use s.Common.Chars.{text_le}
use s.Common.{Bool, true, false, ◌++◌, [], ◌∷◌, Text, Dict, codes, if◌then◌else◌, text_key}
use s.Config.{ShellPermissions}
use s.Acl.{ParsedAcl}

pub record ShellContext (Net : Type 0) : Type 0 where
  pub username : Text
  pub permissions : ShellPermissions
  pub acl : ParsedAcl Net
  pub colors : Bool
  pub bookmarks : Dict Text Text
  pub aliases : Dict Text Text

pub record CommandResult : Type 0 where
  pub output : Text
  pub exit_requested : Bool

abbrev pub crlf : Text
crlf = 13 ∷ 10 ∷ []

abbrev pub output : Text → CommandResult
output text = record { output = text; exit_requested = false }

abbrev pub exit : CommandResult
exit = record { output = codes "logout" ++ crlf; exit_requested = true }

abbrev pub empty : CommandResult
empty = output []

-- `output` of one line.
abbrev pub line : Text → CommandResult
line text = output (text ++ crlf)

abbrev pub green : Text
green = 27 ∷ codes "[32m"

abbrev pub red : Text
red = 27 ∷ codes "[31m"

abbrev pub yellow : Text
yellow = 27 ∷ codes "[33m"

abbrev pub cyan : Text
cyan = 27 ∷ codes "[36m"

abbrev pub reset : Text
reset = 27 ∷ codes "[0m"

unfoldable pub color : Text → Text → Bool → Text
color code text enabled = if enabled then code ++ text ++ reset else text

unfoldable pub insert_by_key : Text → Text → Dict Text Text → Dict Text Text
unfolding text_le
insert_by_key k v [] = (k, v) ∷ []
insert_by_key k v ((j, w) ∷ m) =
    let rest = insert_by_key k v m in if text_le k j then (k, v) ∷ (j, w) ∷ m else (j, w) ∷ rest

-- The entries in the order of their keys: `sort_by_key`.
unfoldable pub sort_by_key : Dict Text Text → Dict Text Text
unfolding insert_by_key
sort_by_key [] = []
sort_by_key ((k, v) ∷ m) = insert_by_key k v (sort_by_key m)
