-- ===== src/Shell/Files.antt =====
-- src/shell/filesystem.rs: `VirtualFs`. Errors are the texts that the code returns.
pub mod Paths
pub mod Listing
use s.Common.{
  ◌≡◌, Bool, true, false, not, ◌&&◌, ◌||◌, List, [], ◌∷◌, ◌++◌, Option, none, some, ◌==◌, ltb, ite,
  if◌then◌else◌, Text, Text-discrete, text_key, Dict, codes, any,
}
use s.Common.Maps.{lookup, insert, contains_key}
use s.Common.Chars.{split, join, strip_prefix, first_is, has_char, same_text, text_le}

pub record VirtualFs : Type 0 where
  pub files : Dict Text Text
  pub dirs : List Text
  pub cwd : Text
  pub home : Text

pub data Result (A : Type 0) : Type 0 where
  ok : A → Result A
  err : Text → Result A

pub record DirEntry : Type 0 where
  pub name : Text
  pub is_dir : Bool

-- `HashSet::insert`
unfoldable pub insert_dir : Text → List Text → List Text
insert_dir d dirs = if any (same_text d) dirs then dirs else d ∷ dirs

abbrev newline : Text
newline = 10 ∷ []

unfoldable pub initial_dirs : Text → List Text
unfolding insert_dir
initial_dirs home = insert_dir (home ++ codes "/.ssh") (
    insert_dir (codes "/var/log") (
      insert_dir (codes "/var") (
        insert_dir (codes "/tmp") (
          insert_dir (codes "/etc")
            (insert_dir home (insert_dir (codes "/home") (codes "/" ∷ [])))))))

-- The version is that of the package.
unfoldable pub new : Text → Text → Text → VirtualFs
unfolding insert initial_dirs
new version username hostname =
    let home = codes "/home/" ++ username in
    record {
      files = insert (home ++ codes "/.profile") (codes "# s5 shell profile" ++ newline) (
          insert (codes "/etc/passwd")
            (username ++ codes ":x:1000:1000::/home/" ++ username ++ codes ":/bin/sh" ++ newline)
            (insert (codes "/etc/os-release")
              (codes "NAME=\"s5\""
                ++ newline
                ++ codes "VERSION=\""
                ++ version
                ++ codes "\""
                ++ newline
                ++ codes "ID=s5"
                ++ newline
                ++ codes "PRETTY_NAME=\"s5 SSH Proxy\""
                ++ newline)
              (insert (codes "/etc/hostname") (hostname ++ newline) [])));
      dirs = initial_dirs home;
      cwd = home;
      home = home;
    }

-- `Vec::pop`
unfoldable pub pop : List Text → List Text
pop [] = []
pop (c ∷ []) = []
pop (c ∷ d ∷ cs) = c ∷ pop (d ∷ cs)

-- The components of the current directory that are not empty.
unfoldable pub push_base : List Text → List Text → List Text
push_base components [] = components
push_base components ([] ∷ cs) = push_base components cs
push_base components ((x ∷ xs) ∷ cs) = push_base (components ++ (x ∷ xs) ∷ []) cs

-- One component of the path.
unfoldable pub apply_component : List Text → Text → List Text
unfolding pop
apply_component components [] = components
apply_component components (x ∷ []) = if x == b'.' then components else components ++ (x ∷ []) ∷ []
apply_component components (x ∷ y ∷ []) =
    if x == b'.' && y == b'.' then pop components else components ++ (x ∷ y ∷ []) ∷ []
apply_component components (x ∷ y ∷ z ∷ zs) = components ++ (x ∷ y ∷ z ∷ zs) ∷ []

unfoldable pub apply_components : List Text → List Text → List Text
unfolding apply_component
apply_components components [] = components
apply_components components (c ∷ cs) = apply_components (apply_component components c) cs

-- `~` in front stands for the home directory.
unfoldable pub expand_home : Text → Text → Text
expand_home home [] = []
expand_home home (c ∷ cs) = if c == b'~' then home ++ cs else c ∷ cs

unfoldable pub print_path : List Text → Text
unfolding join
print_path [] = codes "/"
print_path (c ∷ cs) = codes "/" ++ join (codes "/") (c ∷ cs)

unfoldable pub resolve_path : VirtualFs → Text → Text
unfolding split push_base apply_components expand_home print_path
resolve_path fs path =
    let expanded = expand_home fs.home path in
    let base = if first_is b'/' expanded then [] else fs.cwd in
    print_path (apply_components (push_base [] (split b'/' base)) (split b'/' expanded))

unfoldable pub is_dir : VirtualFs → Text → Bool
is_dir fs path = any (same_text path) fs.dirs

unfoldable pub is_file : VirtualFs → Text → Bool
unfolding contains_key
is_file fs path = contains_key path fs.files

unfoldable pub cd : VirtualFs → Text → VirtualFs × Result Unit
unfolding is_dir is_file
cd fs path =
    let resolved = resolve_path fs path in
    if is_dir fs resolved
    then (record fs { cwd = resolved }, ok tt)
    else if is_file fs resolved
    then (fs, err (codes "cd: not a directory: " ++ path))
    else (fs, err (codes "cd: no such file or directory: " ++ path))

abbrev content_or : Text → Option Text → Result Text
content_or path none = err (codes "cat: " ++ path ++ codes ": No such file or directory")
content_or path (some content) = ok content

unfoldable pub read_file : VirtualFs → Text → Result Text
unfolding lookup
read_file fs path = content_or path (lookup (resolve_path fs path) fs.files)

unfoldable pub insert_sorted : DirEntry → List DirEntry → List DirEntry
unfolding text_le
insert_sorted e [] = e ∷ []
insert_sorted e (f ∷ fs) =
    let rest = insert_sorted e fs in if text_le e.name f.name then e ∷ f ∷ fs else f ∷ rest

-- `sort_by` the names.
unfoldable pub sort_by_name : List DirEntry → List DirEntry
unfolding insert_sorted
sort_by_name [] = []
sort_by_name (e ∷ es) = insert_sorted e (sort_by_name es)

-- A rest of a path that is one component.
unfoldable pub only_child : Option Text → Option Text
only_child none = none
only_child (some []) = none
only_child (some (c ∷ cs)) = if has_char b'/' (c ∷ cs) then none else some (c ∷ cs)

unfoldable pub child_name : Text → Text → Option Text
unfolding strip_prefix only_child
child_name prefix path = only_child (strip_prefix prefix path)

abbrev pub push_child : Bool → Option Text → List DirEntry → List DirEntry
push_child dir none es = es
push_child dir (some n) es = record { name = n; is_dir = dir } ∷ es

unfoldable pub child_dirs : Text → Text → List Text → List DirEntry
unfolding child_name
child_dirs resolved prefix [] = []
child_dirs resolved prefix (d ∷ ds) =
    let rest = child_dirs resolved prefix ds in
    if same_text d resolved then rest else push_child true (child_name prefix d) rest

unfoldable pub child_files : Text → Dict Text Text → List DirEntry
unfolding child_name
child_files prefix [] = []
child_files prefix ((path, content) ∷ fs) =
    push_child false (child_name prefix path) (child_files prefix fs)

-- `rsplit('/').next()`
unfoldable pub last_component : List Text → Text
last_component [] = []
last_component (c ∷ []) = c
last_component (c ∷ d ∷ cs) = last_component (d ∷ cs)

unfoldable pub list_dir : VirtualFs → Text → Result (List DirEntry)
unfolding is_dir is_file sort_by_name child_dirs child_files last_component
list_dir fs path =
    let resolved = resolve_path fs path in
    let prefix = if same_text resolved (codes "/") then codes "/" else resolved ++ codes "/" in
    if is_dir fs resolved
    then ok (sort_by_name (child_dirs resolved prefix fs.dirs ++ child_files prefix fs.files))
    else if is_file fs resolved
    then ok (record { name = last_component (split b'/' resolved); is_dir = false } ∷ [])
    else err (codes "ls: cannot access '" ++ path ++ codes "': No such file or directory")
