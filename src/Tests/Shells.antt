-- ===== src/Tests/Shells.antt =====
-- The shell at concrete inputs (src/shell).
use s.Common.{All, ◌≡◌, refl, false, List, [], ◌∷◌, ◌++◌, some, Text, text_key, arith, codes}
use s.Common.Chars.{from_utf8_lossy}
use s.Config.{all_permissions}
use s.Shell.Parser.{tokenize}
use s.Shell.Parser.Quoting.{Style, Printed, print_all, tokenize-print_all}
use s.Shell.Files.{VirtualFs, Result, cd}
use s.Shell.Files
use s.Shell.Files.Paths.{WellFormed as FilesWellFormed, cd-WellFormed-back}
use s.Shell.Terminal.{TerminalState, EscapeState, process_byte, process_bytes, is_blank}
use s.Shell.Terminal
use s.Shell.Terminal.Invariant.{WellFormed, initial, later, input, typed_text, Reachable-WellFormed}
use s.Shell.Terminal.Prefixes.{Extends}
use s.Shell.Terminal.Completion.{completions}
use s.Shell.Terminal.Editing.{
  Key, type_byte, back, left, right, keys_bytes, Stacks, edits, contents, Represents, enter-edits,
}
use s.Shell.Context.{ShellContext, output}
use s.Shell.Commands.Alias
use s.Shell.Commands.Basic.{Build}
use s.Shell.Executor.{Extended, ShellSession, execute, execute_inner}
use s.Shell.Executor.Expansion.{execute-alias}
use s.Net.{IpAddr}
use s.Tests.Data.{api, acl}

abbrev words : List Printed
words =
    record { style = Style.escaped; word = codes "ls" }
    ∷ record { style = Style.single; word = codes "my files" }
    ∷ []

tokenize-print_all_example : tokenize (print_all words) ≡ codes "ls" ∷ codes "my files" ∷ []
tokenize-print_all_example = tokenize-print_all words (
  (λ e. cc, tt),
  (
    (
      λ e. cc,
      (
        omega arith,
        (
          omega arith,
          (
            omega arith,
            (omega arith, (omega arith, (omega arith, (omega arith, (omega arith, tt))))),
          ),
        ),
      ),
    ),
    tt,
  ),
)

abbrev files : VirtualFs
files = Files.new (codes "1.0") (codes "bob") (codes "host")

cd-WellFormed-back_example :
    FilesWellFormed files
    × ((fs : VirtualFs) (path : Text)
        → FilesWellFormed fs
        → FilesWellFormed (cd fs path).0 × (cd (cd fs path).0 fs.cwd ≡ (fs, Result.ok tt)))
cd-WellFormed-back_example =
    cd-WellFormed-back (codes "1.0") (codes "bob") (codes "host")
      (λ e. cc, λ e. cc, λ e. cc, (omega arith, (omega arith, (omega arith, tt))))

abbrev typed : TerminalState
typed = (process_byte Terminal.new b'l').0

Reachable-WellFormed_example :
    WellFormed (process_byte typed 9).0
    × All
        (Extends (typed_text (process_byte typed 9).0))
        (completions (typed_text (process_byte typed 9).0))
Reachable-WellFormed_example =
    Reachable-WellFormed (later (later initial (input Terminal.new b'l')) (input typed 9))

abbrev keys : List Key
keys =
    type_byte b'l' (omega arith) (omega arith)
    ∷ type_byte b'x' (omega arith) (omega arith)
    ∷ back
    ∷ type_byte b's' (omega arith) (omega arith)
    ∷ left
    ∷ right
    ∷ []

abbrev no_stacks : Stacks
no_stacks = record { before = []; behind = [] }

enter-edits_example :
    Represents (process_bytes Terminal.new (keys_bytes keys)) (edits no_stacks keys)
    × ((process_byte (process_bytes Terminal.new (keys_bytes keys)) 13).2
        ≡ some (from_utf8_lossy (contents (edits no_stacks keys))))
enter-edits_example =
    enter-edits Terminal.new no_stacks keys
      (record { is_normal = refl; line = refl; cursor = refl })

abbrev line_ls : TerminalState
line_ls = record Terminal.new { line_buffer = codes "ls"; cursor_pos = 2 }

abbrev ext : Extended IpAddr
ext = record {
  show = λ args ctx. output (codes "show");
  ping = λ args ctx. output (codes "ping");
  resolve = λ args ctx. output (codes "resolve");
}

abbrev build : Build
build = record { version = codes "1.0"; arch = codes "x86_64" }

abbrev context : ShellContext IpAddr
context = record {
  username = codes "bob";
  permissions = all_permissions;
  acl = acl;
  colors = false;
  bookmarks = [];
  aliases = [];
}

execute-alias_example :
    execute api ext build
      (codes "ll")
      (codes "/tmp" ∷ [])
      files
      (codes "bob")
      (codes "host")
      (some (Alias.run ((codes "ll" ++ b'=' ∷ codes "ls -l") ∷ []) context).0)
    ≡ execute_inner api ext build
        (codes "ls")
        (codes "-l" ∷ codes "/tmp" ∷ [])
        files
        (codes "bob")
        (codes "host")
        (some (Alias.run ((codes "ll" ++ b'=' ∷ codes "ls -l") ∷ []) context).0)
unfolding tokenize
execute-alias_example =
    execute-alias api ext build context files (codes "bob") (codes "host") (codes "ll")
      (codes "ls -l") (codes "ls") (codes "-l" ∷ []) (codes "/tmp" ∷ []) refl (λ e. cc) (λ e. cc)
      (omega arith, (omega arith, tt)) refl

abbrev session : ShellSession api ext build
session = record {
  terminal = Terminal.new;
  executor = record {
    fs = files;
    username = codes "bob";
    hostname = codes "host";
    context = some context;
  };
  closed = false;
}
