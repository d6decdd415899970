-- ===== src/Shell/Commands/Basic.antt =====
-- src/shell/commands: ls.rs, cat.rs, cd.rs, pwd.rs, whoami.rs, uname.rs and help.rs.
use s.Common.{
  ◌≡◌, refl, ap, Bool, true, ◌||◌, not, List, [], ◌∷◌, ◌++◌, if◌then◌else◌, Text, codes, any,
  retain, map,
}
use s.Common.Chars.{has_char, join, split, first_is, same_text}
use s.Shell.Files.{VirtualFs, DirEntry, Result, ok, err, cd, read_file, list_dir}
use s.Shell.Context.{CommandResult, output, line, empty, crlf}

-- The first argument that does not begin with `-`.
unfoldable pub find_path : List Text → Text
find_path [] = codes "."
find_path (a ∷ args) = let rest = find_path args in if first_is b'-' a then rest else a

abbrev long_line : DirEntry → Text
long_line e =
    if e.is_dir
    then codes "drwxr-xr-x  2 root root 4096 Jan  1 00:00 " ++ e.name ++ crlf
    else codes "-rw-r--r--  1 root root   64 Jan  1 00:00 " ++ e.name ++ crlf

abbrev long_lines : List DirEntry → Text
long_lines [] = []
long_lines (e ∷ es) = long_line e ++ long_lines es

abbrev short_name : DirEntry → Text
short_name e = if e.is_dir then e.name ++ codes "/" else e.name

unfoldable pub print_entries : Bool → List DirEntry → CommandResult
unfolding join
print_entries long_format [] = empty
print_entries long_format (e ∷ es) =
    if long_format
    then output (long_lines (e ∷ es))
    else line (join (codes "  ") (map short_name (e ∷ es)))

unfoldable pub list_path : Bool → Bool → Text → VirtualFs → CommandResult
unfolding print_entries list_dir
list_path show_hidden long_format path fs = elim (list_dir fs path) [
  | ok entries ↦
      print_entries long_format (retain (λ e. show_hidden || not (first_is b'.' e.name)) entries)
  | err msg ↦ line msg
]

unfoldable pub ls : List Text → VirtualFs → CommandResult
unfolding find_path list_path
ls args fs = list_path (any (has_char b'a') args) (any (has_char b'l') args) (find_path args) fs

-- The lines that are not empty, each with CR and LF.
abbrev terminal_lines : List Text → Text
terminal_lines [] = []
terminal_lines ([] ∷ ls) = terminal_lines ls
terminal_lines ((c ∷ cs) ∷ ls) = (c ∷ cs) ++ crlf ++ terminal_lines ls

abbrev cat_one : Result Text → Text
cat_one (ok content) = terminal_lines (split 10 content)
cat_one (err msg) = msg ++ crlf

abbrev cat_all : VirtualFs → List Text → Text
cat_all fs [] = []
cat_all fs (path ∷ paths) = cat_one (read_file fs path) ++ cat_all fs paths

unfoldable pub cat : List Text → VirtualFs → CommandResult
unfolding read_file split
cat [] fs = line (codes "cat: missing operand")
cat (path ∷ paths) fs = output (cat_all fs (path ∷ paths))

abbrev first_or_home : List Text → Text
first_or_home [] = codes "~"
first_or_home (path ∷ paths) = path

abbrev cd_result : VirtualFs × Result Unit → VirtualFs × CommandResult
cd_result (fs, ok u) = (fs, empty)
cd_result (fs, err msg) = (fs, line msg)

unfoldable pub change_dir : List Text → VirtualFs → VirtualFs × CommandResult
unfolding cd
change_dir args fs = cd_result (cd fs (first_or_home args))

unfoldable pub pwd : VirtualFs → CommandResult
pwd fs = line fs.cwd

unfoldable pub whoami : Text → CommandResult
whoami username = line username

-- The version of the package, and the architecture the program is built for.
pub record Build : Type 0 where
  pub version : Text
  pub arch : Text

abbrev part : Bool → Text → List Text → List Text
part wanted text rest = if wanted then text ∷ rest else rest

abbrev or_name : List Text → List Text
or_name [] = codes "s5" ∷ []
or_name (p ∷ ps) = p ∷ ps

unfoldable pub uname : Build → List Text → Text → CommandResult
unfolding join
uname build [] hostname = line (codes "s5")
uname build (a ∷ args) hostname =
    let flags = join [] (a ∷ args) in
    if any (same_text (codes "-a")) (a ∷ args)
    then line (
        codes "s5 "
        ++ hostname
        ++ codes " "
        ++ build.version
        ++ codes " "
        ++ build.arch
        ++ codes " s5/"
        ++ build.version
        ++ codes " s5")
    else line (
        join (codes " ") (
          or_name (
            part (has_char b's' flags) (codes "s5") (
              part (has_char b'n' flags) hostname (
                part (has_char b'r' flags) build.version (
                  part (has_char b'm' flags) build.arch
                    (part (has_char b'o' flags) (codes "s5") [])))))))

abbrev lines : List Text → Text
lines [] = []
lines (l ∷ ls) = l ++ crlf ++ lines ls

abbrev basic_help : List Text
basic_help =
    codes "Available commands:"
    ∷ []
    ∷ codes "ls [path]          List directory contents"
    ∷ codes "cd [path]          Change directory"
    ∷ codes "pwd                Print working directory"
    ∷ codes "cat <file>         Display file contents"
    ∷ codes "whoami             Print current user"
    ∷ codes "hostname           Print hostname"
    ∷ codes "uname [-a]         Print system information"
    ∷ codes "id                 Print user identity"
    ∷ codes "echo <text>        Print text"
    ∷ codes "env                Print environment variables"
    ∷ codes "clear              Clear screen"
    ∷ codes "help               Show this help"
    ∷ codes "exit               Close connection"
    ∷ []

abbrev proxy_help : List Text
proxy_help =
    []
    ∷ codes "Proxy commands:"
    ∷ []
    ∷ codes "show connections   Show active proxy connections"
    ∷ codes "show bandwidth     Show bandwidth usage and limits"
    ∷ codes "show quota         Show quota limits and current usage"
    ∷ codes "show acl           Show effective ACL rules"
    ∷ codes "show status        Show session status"
    ∷ codes "show history       Show proxy connection history"
    ∷ codes "show fingerprint   Show SSH key fingerprint"
    ∷ codes "test <host:port>   Test if destination is allowed by ACL"
    ∷ codes "ping <host[:port]> DNS resolve and ACL check for host"
    ∷ codes "resolve <domain>   DNS lookup showing all IPs"
    ∷ codes "bookmark add|list|remove  Manage destination bookmarks"
    ∷ codes "alias                     List all aliases"
    ∷ codes "alias <name>=<command>    Create alias"
    ∷ codes "alias remove <name>       Remove alias"
    ∷ []

-- Whether a context is given decides on the second part.
unfoldable pub help : Bool → CommandResult
help has_context = output (lines basic_help ++ (if has_context then lines proxy_help else []))

find_path-dash : (path : Text) → find_path (codes "-l" ∷ path ∷ []) ≡ find_path (path ∷ [])
unfolding find_path
find_path-dash path = refl

any_one : (p : Text → Bool) (path : Text) → p path ≡ true → any p (path ∷ []) ≡ true
any_one p path h = rw h refl

-- A path that holds the letter l is listed as by the option -l, in every file system.
pub ls_of_path_long :
    (fs : VirtualFs) (path : Text)
    → has_char b'l' path ≡ true
    → ls (path ∷ []) fs ≡ ls (codes "-l" ∷ path ∷ []) fs
unfolding ls
ls_of_path_long fs path h =
    ap (λ b. list_path (any (has_char b'a') (path ∷ [])) b (find_path (path ∷ [])) fs)
      (any_one (has_char b'l') path h)
