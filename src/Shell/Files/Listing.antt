-- ===== src/Shell/Files/Listing.antt =====
-- What `list_dir` lists.
use s.Common.{
  ◌≡◌, ◌≢◌, refl, ap, subst, inl, inr, Bool, true, false, List, [], ◌∷◌, ◌++◌, if◌then◌else◌, Text,
  Dict, text_key, Option, none, some, All, arith, codes, Bool-cases, any,
}
use s.Common.Maps.{lookup, contains_key}
use s.Common.Chars.{strip_prefix, has_char, same_text, text_le}
use s.Shell.Files.{
  VirtualFs, ok, DirEntry, resolve_path, is_dir, is_file, insert_sorted, sort_by_name, only_child,
  child_name, push_child, child_dirs, child_files, list_dir,
}

insert_sorted-All {κ} :
    (P : DirEntry → Type κ) (e : DirEntry) (es : List DirEntry)
    → P e
    → All P es
    → All P (insert_sorted e es)
unfolding insert_sorted
insert_sorted-All P e [] p h = (p, tt)
insert_sorted-All P e (f ∷ fs) p h = elim (Bool-cases (text_le e.name f.name)) [
  | inl le ↦ rw le (p, h)
  | inr gt ↦ rw gt (h.0, insert_sorted-All P e fs p h.1)
]

sort_by_name-All {κ} :
    (P : DirEntry → Type κ) (es : List DirEntry) → All P es → All P (sort_by_name es)
unfolding sort_by_name
sort_by_name-All P [] h = tt
sort_by_name-All P (e ∷ es) h =
    insert_sorted-All P e (sort_by_name es) h.0 (sort_by_name-All P es h.1)

strip_prefix-some : (ps cs rest : Text) → strip_prefix ps cs ≡ some rest → cs ≡ ps ++ rest
unfolding strip_prefix
strip_prefix-some [] cs rest h = ground (arith, h)
strip_prefix-some (p ∷ ps) [] rest h = cc
strip_prefix-some (p ∷ ps) (c ∷ cs) rest h = ground (arith, h, strip_prefix-some ps cs rest)

-- The name of a child: one component that is not empty.
abbrev pub IsChildName : Text → Type 0
IsChildName n = (n ≢ []) × (has_char b'/' n ≡ false)

only_child-some :
    (o : Option Text) (n : Text) → only_child o ≡ some n → (o ≡ some n) × IsChildName n
unfolding only_child
only_child-some none n h = cc
only_child-some (some []) n h = cc
only_child-some (some (c ∷ cs)) n h = elim (Bool-cases (has_char b'/' (c ∷ cs))) [
  | inl slash ↦ ground (arith, h, slash)
  | inr plain ↦
      let same : c ∷ cs ≡ n = ground (arith, h, plain) in
      (ap some same, subst IsChildName same (λ e. cc, plain))
]

child_name-some :
    (prefix path n : Text) → child_name prefix path ≡ some n → (path ≡ prefix ++ n) × IsChildName n
unfolding child_name
child_name-some prefix path n h =
    let (found, name) = only_child-some (strip_prefix prefix path) n h in
    (strip_prefix-some prefix path n found, name)

-- An entry that names a directory or a file below the prefix.
pub record IsChild (fs : VirtualFs) (prefix : Text) (e : DirEntry) : Type 0 where
  pub is_name : IsChildName e.name
  pub exists :
      (if e.is_dir then is_dir fs (prefix ++ e.name) else is_file fs (prefix ++ e.name)) ≡ true

push_child-All {κ} :
    (P : DirEntry → Type κ) (dir : Bool) (o : Option Text) (es : List DirEntry)
    → ((n : Text) → o ≡ some n → P (record { name = n; is_dir = dir }))
    → All P es
    → All P (push_child dir o es)
push_child-All P dir none es p h = h
push_child-All P dir (some n) es p h = (p n refl, h)

child_dirs-IsChild :
    (fs : VirtualFs) (resolved prefix : Text) (ds : List Text)
    → ((d : Text) → any (same_text d) ds ≡ true → is_dir fs d ≡ true)
    → All (IsChild fs prefix) (child_dirs resolved prefix ds)
unfolding child_dirs
child_dirs-IsChild fs resolved prefix [] h = tt
child_dirs-IsChild fs resolved prefix (d ∷ ds) h =
    let rest : All (IsChild fs prefix) (child_dirs resolved prefix ds) =
      child_dirs-IsChild fs resolved prefix ds (λ x m. h x (ground (arith, m))) in
    elim (Bool-cases (same_text d resolved)) [
      | inl self ↦ rw self rest
      | inr other ↦ rw other (
          push_child-All (IsChild fs prefix) true (child_name prefix d) _
            (λ n e.
              let (path, name) = child_name-some prefix d n e in
              record { is_name = name; exists = rw (← path) (h d (ground arith)) })
            rest)
    ]

child_files-IsChild :
    (fs : VirtualFs) (prefix : Text) (m : Dict Text Text)
    → ((path : Text) → contains_key path m ≡ true → is_file fs path ≡ true)
    → All (IsChild fs prefix) (child_files prefix m)
unfolding child_files contains_key lookup
child_files-IsChild fs prefix [] h = tt
child_files-IsChild fs prefix ((path, content) ∷ m) h =
    push_child-All (IsChild fs prefix) false (child_name prefix path) (child_files prefix m)
      (λ n e.
        let (same, name) = child_name-some prefix path n e in
        record { is_name = name; exists = rw (← same) (h path (ground arith)) })
      (child_files-IsChild fs prefix m (λ p k. h p (ground (arith, k))))

All-append {κ} :
    {A : Type 0} (P : A → Type κ) (xs ys : List A) → All P xs → All P ys → All P (xs ++ ys)
All-append P [] ys h k = k
All-append P (x ∷ xs) ys h k = (h.0, All-append P xs ys h.1 k)

-- The path of a directory with a slash behind it.
abbrev pub below : Text → Text
below resolved = if same_text resolved (codes "/") then codes "/" else resolved ++ codes "/"

-- Each entry that is listed of a directory has a name of one component, and below the directory
-- there is a directory or a file of that name, as the entry says.
pub list_dir-IsChild :
    (fs : VirtualFs) (path : Text) (es : List DirEntry)
    → is_dir fs (resolve_path fs path) ≡ true
    → list_dir fs path ≡ ok es
    → All (IsChild fs (below (resolve_path fs path))) es
unfolding list_dir is_dir is_file
list_dir-IsChild fs path es d h =
    let resolved : Text = resolve_path fs path in
    let dirs : List DirEntry = child_dirs resolved (below resolved) fs.dirs in
    let files : List DirEntry = child_files (below resolved) fs.files in
    let same : sort_by_name (dirs ++ files) ≡ es = ground (arith, h, d) in
    subst (All (IsChild fs (below resolved))) same (
      sort_by_name-All _ (dirs ++ files) (
        All-append _ dirs files (child_dirs-IsChild fs resolved (below resolved) fs.dirs (λ x m. m))
          (child_files-IsChild fs (below resolved) fs.files (λ x m. m))))
