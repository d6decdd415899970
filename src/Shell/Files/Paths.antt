-- ===== src/Shell/Files/Paths.antt =====
-- Resolved paths are in normal form, and the current directory exists.
use s.Common.{
  ℕ, ◌≡◌, ◌≢◌, refl, sym, ap, ◌∙◌, inl, inr, Bool, true, false, ◌&&◌, List, [], ◌∷◌, ◌++◌, ◌==◌,
  if◌then◌else◌, Text, All, arith, codes, Bool-cases, any,
}
use s.Common.Chars.{split, join, onto_first, first_is, same_text}
use s.Shell.Files.{
  VirtualFs, ok, pop, push_base, apply_component, apply_components, expand_home, print_path,
  resolve_path, is_dir, is_file, cd, new, insert_dir, initial_dirs,
}

-- A component of a path in normal form.
abbrev pub IsName : Text → Type 0
IsName c = (c ≢ []) × (c ≢ b'.' ∷ []) × (c ≢ b'.' ∷ b'.' ∷ []) × All (λ x. x ≢ b'/') c

pub record IsNormal (path : Text) : Type 0 where
  pub names : List Text
  pub are_names : All IsName names
  pub printed : path ≡ print_path names

abbrev NoSlash : Text → Type 0
NoSlash c = All (λ x. x ≢ b'/') c

onto_first-NoSlash :
    (x : ℕ) (ls : List Text) → x ≢ b'/' → All NoSlash ls → All NoSlash (onto_first x ls)
onto_first-NoSlash x [] n h = ((n, tt), tt)
onto_first-NoSlash x (l ∷ ls) n h = ((n, h.0), h.1)

split-NoSlash : (xs : Text) → All NoSlash (split b'/' xs)
unfolding split
split-NoSlash [] = (tt, tt)
split-NoSlash (x ∷ xs) = elim (Bool-cases (x == b'/')) [
  | inl same ↦ rw same (tt, split-NoSlash xs)
  | inr other ↦
      rw other (onto_first-NoSlash x (split b'/' xs) (ground (arith, other)) (split-NoSlash xs))
]

split-onto : (c : ℕ) (xs ys : Text) → All (λ x. x ≢ c) xs → split c (xs ++ c ∷ ys) ≡ xs ∷ split c ys
unfolding split
split-onto c [] ys h = ground arith
split-onto c (x ∷ xs) ys h = ground (arith, split-onto c xs ys h.1)

split_whole : (c : ℕ) (xs : Text) → All (λ x. x ≢ c) xs → split c xs ≡ xs ∷ []
unfolding split
split_whole c [] h = refl
split_whole c (x ∷ xs) h = ground (arith, split_whole c xs h.1)

append_assoc : (xs ys zs : Text) → (xs ++ ys) ++ zs ≡ xs ++ (ys ++ zs)
append_assoc [] ys zs = refl
append_assoc (x ∷ xs) ys zs = ap (λ l. x ∷ l) (append_assoc xs ys zs)

split-join :
    (c : Text) (cs : List Text)
    → All IsName (c ∷ cs)
    → split b'/' (join (codes "/") (c ∷ cs)) ≡ c ∷ cs
unfolding join
split-join c [] h = split_whole b'/' c h.0.3
split-join c (d ∷ ds) h =
    rw (append_assoc c (codes "/") (join (codes "/") (d ∷ ds)))
      (split-onto b'/' c (join (codes "/") (d ∷ ds)) h.0.3 ∙ ap (λ l. c ∷ l) (split-join d ds h.1))

list_append_assoc : (xs ys zs : List Text) → (xs ++ ys) ++ zs ≡ xs ++ (ys ++ zs)
list_append_assoc [] ys zs = refl
list_append_assoc (x ∷ xs) ys zs = ap (λ l. x ∷ l) (list_append_assoc xs ys zs)

apply_component-name : (cs : List Text) (c : Text) → IsName c → apply_component cs c ≡ cs ++ c ∷ []
unfolding apply_component
apply_component-name cs [] h = absurd (h.0 refl)
apply_component-name cs (x ∷ []) h = ground (arith, h)
apply_component-name cs (x ∷ y ∷ []) h = ground (arith, h)
apply_component-name cs (x ∷ y ∷ z ∷ zs) h = refl

append-nil : (xs : List Text) → xs ++ [] ≡ xs
append-nil [] = refl
append-nil (x ∷ xs) = ap (λ l. x ∷ l) (append-nil xs)

apply_components-names :
    (cs names : List Text) → All IsName names → apply_components cs names ≡ cs ++ names
unfolding apply_components
apply_components-names cs [] h = sym (append-nil cs)
apply_components-names cs (n ∷ names) h =
    rw (apply_component-name cs n h.0)
      (apply_components-names (cs ++ n ∷ []) names h.1 ∙ list_append_assoc cs (n ∷ []) names)

push_base-names : (cs names : List Text) → All IsName names → push_base cs names ≡ cs ++ names
unfolding push_base
push_base-names cs [] h = sym (append-nil cs)
push_base-names cs ([] ∷ names) h = absurd (h.0.0 refl)
push_base-names cs ((x ∷ xs) ∷ names) h =
    push_base-names (cs ++ (x ∷ xs) ∷ []) names h.1 ∙ list_append_assoc cs ((x ∷ xs) ∷ []) names

pop-names : (cs : List Text) → All IsName cs → All IsName (pop cs)
unfolding pop
pop-names [] h = tt
pop-names (c ∷ []) h = tt
pop-names (c ∷ d ∷ cs) h = (h.0, pop-names (d ∷ cs) h.1)

push-names : (cs : List Text) (c : Text) → All IsName cs → IsName c → All IsName (cs ++ c ∷ [])
push-names [] c h n = (n, tt)
push-names (d ∷ cs) c h n = (h.0, push-names cs c h.1 n)

apply_component-names :
    (cs : List Text) (c : Text) → All IsName cs → NoSlash c → All IsName (apply_component cs c)
unfolding apply_component
apply_component-names cs [] h n = h
apply_component-names cs (x ∷ []) h n = elim (Bool-cases (x == b'.')) [
  | inl dot ↦ rw dot h
  | inr other ↦
      rw other (push-names cs (x ∷ []) h (λ e. cc, λ e. ground (arith, e, other), λ e. cc, n))
]
apply_component-names cs (x ∷ y ∷ []) h n = elim (Bool-cases (x == b'.' && y == b'.')) [
  | inl dots ↦ rw dots (pop-names cs h)
  | inr other ↦
      rw other (push-names cs (x ∷ y ∷ []) h (λ e. cc, λ e. cc, λ e. ground (arith, e, other), n))
]
apply_component-names cs (x ∷ y ∷ z ∷ zs) h n =
    push-names cs (x ∷ y ∷ z ∷ zs) h (λ e. cc, λ e. cc, λ e. cc, n)

apply_components-IsName :
    (cs parts : List Text)
    → All IsName cs
    → All NoSlash parts
    → All IsName (apply_components cs parts)
unfolding apply_components
apply_components-IsName cs [] h n = h
apply_components-IsName cs (c ∷ parts) h n =
    apply_components-IsName (apply_component cs c) parts (apply_component-names cs c h n.0) n.1

parts-print_path : (ps : List Text) → All IsName ps → push_base [] (split b'/' (print_path ps)) ≡ ps
unfolding print_path split push_base
parts-print_path [] h = refl
parts-print_path (p ∷ ps) h = rw (split-join p ps h) (push_base-names [] (p ∷ ps) h)

resolve_path-print_path :
    (fs : VirtualFs) (ps : List Text)
    → All IsName ps
    → resolve_path fs (print_path ps) ≡ print_path ps
unfolding resolve_path expand_home print_path split push_base apply_components apply_component
resolve_path-print_path fs [] h = refl
resolve_path-print_path fs (p ∷ ps) h =
    rw (split-join p ps h, apply_components-names [] (p ∷ ps) h) refl

-- A path in normal form stands for itself, in every directory.
pub resolve_path-normal :
    (fs : VirtualFs) (path : Text) → IsNormal path → resolve_path fs path ≡ path
resolve_path-normal fs path h = rw (h.printed) (resolve_path-print_path fs h.names h.are_names)

base-names :
    (absolute : Bool) (cwd : Text)
    → IsNormal cwd
    → All IsName (push_base [] (split b'/' (if absolute then [] else cwd)))
unfolding split push_base
base-names true cwd h = tt
base-names false cwd h = rw (h.printed, parts-print_path h.names h.are_names) (h.are_names)

pub resolve_path-IsNormal :
    (fs : VirtualFs) (path : Text) → IsNormal fs.cwd → IsNormal (resolve_path fs path)
unfolding resolve_path
resolve_path-IsNormal fs path h =
    let expanded : Text = expand_home fs.home path in
    record {
      names =
          apply_components
            (push_base [] (split b'/' (if first_is b'/' expanded then [] else fs.cwd)))
            (split b'/' expanded);
      are_names =
          apply_components-IsName _ (split b'/' expanded)
            (base-names (first_is b'/' expanded) fs.cwd h) (split-NoSlash expanded);
      printed = refl;
    }

pub record WellFormed (fs : VirtualFs) : Type 0 where
  pub cwd_normal : IsNormal fs.cwd
  pub cwd_exists : is_dir fs fs.cwd ≡ true

insert_dir_self : (d : Text) (ds : List Text) → any (same_text d) (insert_dir d ds) ≡ true
unfolding insert_dir
insert_dir_self d ds = elim (Bool-cases (any (same_text d) ds)) [
  | inl old ↦ rw old old
  | inr fresh ↦ rw fresh (ground arith)
]

insert_dir-any :
    (p : Text → Bool) (d : Text) (ds : List Text) → any p ds ≡ true → any p (insert_dir d ds) ≡ true
unfolding insert_dir
insert_dir-any p d ds h = ground (arith, h)

initial_dirs-home : (home : Text) → any (same_text home) (initial_dirs home) ≡ true
unfolding initial_dirs
initial_dirs-home home =
    let keep = insert_dir-any (same_text home) in
    keep _ _ (keep _ _ (keep _ _ (keep _ _ (keep _ _ (insert_dir_self home _)))))

new-WellFormed :
    (version username hostname : Text)
    → IsName username
    → WellFormed (new version username hostname)
unfolding new is_dir print_path join
new-WellFormed version username hostname h = record {
  cwd_normal = record {
    names = codes "home" ∷ username ∷ [];
    are_names = (
      (λ e. cc, λ e. cc, λ e. cc, (omega arith, (omega arith, (omega arith, (omega arith, tt))))),
      (h, tt),
    );
    printed = refl;
  };
  cwd_exists = initial_dirs-home (codes "/home/" ++ username);
}

cd_normal :
    (fs : VirtualFs) (path : Text)
    → IsNormal path
    → is_dir fs path ≡ true
    → cd fs path ≡ (record fs { cwd = path }, ok tt)
unfolding cd is_dir
cd_normal fs path h d = rw (resolve_path-normal fs path h, d) refl

cd-WellFormed : (fs : VirtualFs) (path : Text) → WellFormed fs → WellFormed (cd fs path).0
unfolding cd is_dir
cd-WellFormed fs path h = elim (Bool-cases (any (same_text (resolve_path fs path)) fs.dirs)) [
  | inl found ↦
      rw found
        (record { cwd_normal = resolve_path-IsNormal fs path h.cwd_normal; cwd_exists = found })
  | inr missing ↦
      rw missing
        (elim (Bool-cases (is_file fs (resolve_path fs path))) [ inl f ↦ rw f h | inr n ↦ rw n h ])
]

cd-back : (fs : VirtualFs) (path : Text) → WellFormed fs → cd (cd fs path).0 fs.cwd ≡ (fs, ok tt)
unfolding cd is_dir
cd-back fs path h = elim (Bool-cases (any (same_text (resolve_path fs path)) fs.dirs)) [
  | inl found ↦
      rw found
        (cd_normal (record fs { cwd = resolve_path fs path }) fs.cwd h.cwd_normal h.cwd_exists)
  | inr missing ↦ rw missing (elim (Bool-cases (is_file fs (resolve_path fs path))) [
    | inl f ↦ rw f (cd_normal fs fs.cwd h.cwd_normal h.cwd_exists)
    | inr n ↦ rw n (cd_normal fs fs.cwd h.cwd_normal h.cwd_exists)
  ])
]

-- The current directory exists and its path is in normal form, in a new file system for a user
-- whose name is a component of a path, and behind every cd from a state of that kind; and from
-- there, whether that cd succeeded or not, a cd to the directory before leads back to the state
-- before.
pub cd-WellFormed-back :
    (version username hostname : Text)
    → IsName username
    → WellFormed (new version username hostname)
      × ((fs : VirtualFs) (path : Text)
          → WellFormed fs
          → WellFormed (cd fs path).0 × (cd (cd fs path).0 fs.cwd ≡ (fs, ok tt)))
cd-WellFormed-back version username hostname h = (
  new-WellFormed version username hostname h,
  λ fs path w. (cd-WellFormed fs path w, cd-back fs path w),
)
