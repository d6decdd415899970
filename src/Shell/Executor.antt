-- ===== src/Shell/Executor.antt =====
-- src/shell/executor.rs, with `execute` and `execute_inner` of src/shell/commands/mod.rs, and the
-- session of src/shell/mod.rs as the list of what it sends. The commands show, ping and resolve
-- are a parameter.
pub mod Expansion
use s.Common.{
  ℕ, Bool, true, false, ◌||◌, not, List, [], ◌∷◌, ◌++◌, Option, none, some, if◌then◌else◌, Text,
  text_key, codes,
}
use s.Common.Maps.{Key, lookup}
use s.Common.Chars.{first_is, join, strip_prefix, trim, as_bytes, same_text}
use s.Net.{NetApi}
use s.Shell.Parser.{tokenize}
use s.Shell.Files.{VirtualFs}
use s.Shell.Context.{ShellContext, CommandResult, output, line, empty, exit, crlf}
use s.Shell.Commands.Basic.{Build, ls, cat, change_dir, pwd, whoami, uname, help}
use s.Shell.Commands.Alias
use s.Shell.Commands.Bookmark
use s.Shell.Commands.Test
use s.Shell.Terminal.{TerminalState, process_byte}

pub record Extended (Net : Type 0) : Type 0 where
  pub show : List Text → ShellContext Net → CommandResult
  pub ping : List Text → ShellContext Net → CommandResult
  pub resolve : List Text → ShellContext Net → CommandResult

-- What `execute` may change, with the result.
pub record Executed (Net : Type 0) : Type 0 where
  pub fs : VirtualFs
  pub context : Option (ShellContext Net)
  pub result : CommandResult

-- `CommandExecutor`
pub record CommandExecutor (Net : Type 0) : Type 0 where
  pub fs : VirtualFs
  pub username : Text
  pub hostname : Text
  pub context : Option (ShellContext Net)

abbrev has_some {ℓ} : {A : Type ℓ} → Option A → Bool
has_some none = false
has_some (some a) = true

module _ (api : NetApi) (ext : Extended api.Net) (build : Build) where
  open api use {Net}

  abbrev unchanged : VirtualFs → Option (ShellContext Net) → CommandResult → Executed Net
  unchanged fs ctx r = record { fs = fs; context = ctx; result = r }

  -- A command that needs a context and may change it.
  abbrev with_context :
      Text
      → VirtualFs
      → Option (ShellContext Net)
      → (ShellContext Net → ShellContext Net × CommandResult)
      → Executed Net
  with_context name fs none f = record {
    fs = fs;
    context = none;
    result = line (name ++ codes ": context not available");
  }
  with_context name fs (some ctx) f = record {
    fs = fs;
    context = some (f ctx).0;
    result = (f ctx).1;
  }

  abbrev reading :
      (ShellContext Net → CommandResult) → ShellContext Net → ShellContext Net × CommandResult
  reading f ctx = (ctx, f ctx)

  -- The commands that need a context.
  unfoldable pub execute_extended :
      Text → List Text → VirtualFs → Option (ShellContext Net) → Executed Net
  unfolding Alias.run Bookmark.run Test.run
  execute_extended cmd args fs ctx =
      if same_text cmd (codes "show")
      then with_context cmd fs ctx (reading (ext.show args))
      else if same_text cmd (codes "test")
      then with_context cmd fs ctx (reading (Test.run api args))
      else if same_text cmd (codes "ping")
      then with_context cmd fs ctx (reading (ext.ping args))
      else if same_text cmd (codes "resolve")
      then with_context cmd fs ctx (reading (ext.resolve args))
      else if same_text cmd (codes "bookmark")
      then with_context cmd fs ctx (Bookmark.run args)
      else if same_text cmd (codes "alias")
      then with_context cmd fs ctx (Alias.run args)
      else if first_is b'#' cmd
      then unchanged fs ctx empty
      else unchanged fs ctx (line (cmd ++ codes ": command not found"))

  abbrev environment : Text → Text → Text
  environment username hostname =
      codes "HOME=/home/"
      ++ username
      ++ crlf
      ++ codes "USER="
      ++ username
      ++ crlf
      ++ codes "SHELL=/bin/sh"
      ++ crlf
      ++ codes "HOSTNAME="
      ++ hostname
      ++ crlf
      ++ codes "TERM=xterm-256color"
      ++ crlf
      ++ codes "PATH=/usr/local/bin:/usr/bin:/bin"
      ++ crlf

  abbrev identity : Text → Text
  identity username =
      codes "uid=1000("
      ++ username
      ++ codes ") gid=1000("
      ++ username
      ++ codes ") groups=1000("
      ++ username
      ++ codes ")"

  abbrev changed : Option (ShellContext Net) → VirtualFs × CommandResult → Executed Net
  changed ctx (fs, r) = record { fs = fs; context = ctx; result = r }

  unfoldable pub execute_inner :
      Text → List Text → VirtualFs → Text → Text → Option (ShellContext Net) → Executed Net
  unfolding ls cat change_dir pwd whoami uname help execute_extended join
  execute_inner cmd args fs username hostname ctx =
      if same_text cmd (codes "ls")
      then unchanged fs ctx (ls args fs)
      else if same_text cmd (codes "pwd")
      then unchanged fs ctx (pwd fs)
      else if same_text cmd (codes "cd")
      then changed ctx (change_dir args fs)
      else if same_text cmd (codes "cat")
      then unchanged fs ctx (cat args fs)
      else if same_text cmd (codes "whoami")
      then unchanged fs ctx (whoami username)
      else if same_text cmd (codes "uname")
      then unchanged fs ctx (uname build args hostname)
      else if same_text cmd (codes "help")
      then unchanged fs ctx (help (has_some ctx))
      else if same_text cmd (codes "exit") || same_text cmd (codes "logout")
      then unchanged fs ctx exit
      else if same_text cmd (codes "echo")
      then unchanged fs ctx (line (join (codes " ") args))
      else if same_text cmd (codes "id")
      then unchanged fs ctx (line (identity username))
      else if same_text cmd (codes "hostname")
      then unchanged fs ctx (line hostname)
      else if same_text cmd (codes "clear")
      then unchanged fs ctx (output (27 ∷ codes "[2J" ++ 27 ∷ codes "[H"))
      else if same_text cmd (codes "env") || same_text cmd (codes "printenv")
      then unchanged fs ctx (output (environment username hostname))
      else if same_text cmd []
      then unchanged fs ctx empty
      else execute_extended cmd args fs ctx

  abbrev alias_of : Text → Option (ShellContext Net) → Option Text
  alias_of cmd none = none
  alias_of cmd (some ctx) = lookup cmd ctx.aliases

  -- The command behind an alias, with the arguments that follow it.
  abbrev pub expand_tokens : List Text → Text → List Text → Text × List Text
  expand_tokens [] cmd args = (cmd, args)
  expand_tokens (alias_cmd ∷ alias_tokens) cmd args = (alias_cmd, alias_tokens ++ args)

  abbrev pub expand : Option Text → Text → List Text → Text × List Text
  expand none cmd args = (cmd, args)
  expand (some expanded) cmd args = expand_tokens (tokenize expanded) cmd args

  unfoldable pub execute :
      Text → List Text → VirtualFs → Text → Text → Option (ShellContext Net) → Executed Net
  execute cmd args fs username hostname ctx =
      let (command, arguments) = expand (alias_of cmd ctx) cmd args in
      execute_inner command arguments fs username hostname ctx

  abbrev execute_tokens : CommandExecutor Net → List Text → Executed Net
  execute_tokens e [] = record { fs = e.fs; context = e.context; result = empty }
  execute_tokens e (cmd ∷ args) = execute cmd args e.fs e.username e.hostname e.context

  abbrev executed : CommandExecutor Net → Executed Net → CommandExecutor Net × CommandResult
  executed e x = (record e { fs = x.fs; context = x.context }, x.result)

  -- The method of `CommandExecutor`: a line that is blank has no tokens.
  unfoldable pub execute_line : CommandExecutor Net → Text → CommandExecutor Net × CommandResult
  execute_line e input = executed e (execute_tokens e (tokenize (trim input)))

  unfoldable pub format_cwd : VirtualFs → Text
  unfolding strip_prefix
  format_cwd fs =
      if same_text fs.cwd fs.home
      then codes "~"
      else elim (strip_prefix fs.home fs.cwd) [ some rest ↦ codes "~" ++ rest | none ↦ fs.cwd ]

  unfoldable pub prompt : CommandExecutor Net → Text
  unfolding format_cwd
  prompt e = e.username ++ codes "@" ++ e.hostname ++ codes ":" ++ format_cwd e.fs ++ codes "$ "

  -- `ShellSession`, without the channel and the message of the day.
  pub record ShellSession : Type 0 where
    pub terminal : TerminalState
    pub executor : CommandExecutor Net
    pub closed : Bool

  -- Behind a completed line: the session and the bytes sent.
  unfoldable pub handle_line : ShellSession → Option Text → ShellSession × List ℕ
  handle_line s none = (s, [])
  handle_line s (some []) = (s, as_bytes (prompt s.executor))
  handle_line s (some (c ∷ cs)) =
      let (executor, result) = execute_line s.executor (c ∷ cs) in
      if result.exit_requested
      then (record s { executor = executor; closed = true }, as_bytes result.output)
      else (record s { executor = executor }, as_bytes result.output ++ as_bytes (prompt executor))

  unfoldable pub handle_byte : ShellSession → ℕ → ShellSession × List ℕ
  handle_byte s byte =
      let (terminal, echo, completed) = process_byte s.terminal byte in
      let (session, sent) = handle_line (record s { terminal = terminal }) completed in
      (session, echo ++ sent)

  -- Once a session is closed, the bytes left are dropped.
  unfoldable pub handle_input : ShellSession → List ℕ → ShellSession × List ℕ
  handle_input s [] = (s, [])
  handle_input s (b ∷ bs) =
      let (after, sent) = handle_byte s b in
      let (last, rest) = handle_input after bs in if s.closed then (s, []) else (last, sent ++ rest)
