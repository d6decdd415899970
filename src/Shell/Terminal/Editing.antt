-- ===== src/Shell/Terminal/Editing.antt =====
-- The line editor keeps what an editor of two stacks would: the bytes before and behind the cursor.
use s.Common.{
  ℕ, suc, ◌+◌, ◌-◌, ◌≤◌, ◌<◌, ◌≡◌, refl, sym, ap, ◌∙◌, inl, inr, true, false, List, [], ◌∷◌, ◌++◌,
  some, ltb, leb, if◌then◌else◌, length, take, drop, arith, Bool-cases, length-append,
  take-length-append, drop-length-append,
}
use s.Common.Chars.{from_utf8_lossy}
use s.Shell.Terminal.{
  TerminalState, EscapeState, max_line_length, insert_at, remove_at, process_byte, process_bytes,
  normal_byte, csi_byte, printable, backspace, kill_line, enter,
}

-- What a user does to the line.
pub data Key : Type 0 where
  type_byte : (b : ℕ) → 32 ≤ b → b < 127 → Key
  back left right kill : Key

abbrev pub key_bytes : Key → List ℕ
key_bytes (type_byte b h k) = b ∷ []
key_bytes back = 127 ∷ []
key_bytes left = 27 ∷ b'[' ∷ b'D' ∷ []
key_bytes right = 27 ∷ b'[' ∷ b'C' ∷ []
key_bytes kill = 21 ∷ []

abbrev pub keys_bytes : List Key → List ℕ
keys_bytes [] = []
keys_bytes (k ∷ ks) = key_bytes k ++ keys_bytes ks

-- The bytes before the cursor, the last one first, and the bytes behind it.
pub record Stacks : Type 0 where
  pub before : List ℕ
  pub behind : List ℕ

abbrev move_left : List ℕ → List ℕ → Stacks
move_left [] ys = record { before = []; behind = ys }
move_left (x ∷ xs) ys = record { before = xs; behind = x ∷ ys }

abbrev move_right : List ℕ → List ℕ → Stacks
move_right xs [] = record { before = xs; behind = [] }
move_right xs (y ∷ ys) = record { before = y ∷ xs; behind = ys }

abbrev drop_first : List ℕ → List ℕ
drop_first [] = []
drop_first (x ∷ xs) = xs

abbrev pub edit : Stacks → Key → Stacks
edit z (type_byte b h k) =
    if ltb (length z.before + length z.behind) max_line_length
    then record z { before = b ∷ z.before }
    else z
edit z back = record z { before = drop_first z.before }
edit z left = move_left z.before z.behind
edit z right = move_right z.before z.behind
edit z kill = record { before = []; behind = [] }

abbrev pub edits : Stacks → List Key → Stacks
edits z [] = z
edits z (k ∷ ks) = edits (edit z k) ks

abbrev pub reverse : List ℕ → List ℕ
reverse [] = []
reverse (x ∷ xs) = reverse xs ++ x ∷ []

abbrev pub contents : Stacks → List ℕ
contents z = reverse z.before ++ z.behind

pub record Represents (t : TerminalState) (z : Stacks) : Type 0 where
  pub is_normal : t.esc_state ≡ EscapeState.normal
  pub line : t.line_buffer ≡ contents z
  pub cursor : t.cursor_pos ≡ length z.before

length-reverse : (xs : List ℕ) → length (reverse xs) ≡ length xs
length-reverse [] = refl
length-reverse (x ∷ xs) = omega (arith, length-append (reverse xs) (x ∷ []), length-reverse xs)

append_assoc : (xs ys zs : List ℕ) → (xs ++ ys) ++ zs ≡ xs ++ (ys ++ zs)
append_assoc [] ys zs = refl
append_assoc (x ∷ xs) ys zs = ap (λ l. x ∷ l) (append_assoc xs ys zs)

length-contents : (z : Stacks) → length (contents z) ≡ length z.before + length z.behind
length-contents z =
    omega (arith, length-append (reverse z.before) z.behind, length-reverse z.before)

-- A cut behind as many bytes as the first part has.
take_at : (n : ℕ) (xs ys : List ℕ) → n ≡ length xs → take n (xs ++ ys) ≡ xs
take_at n xs ys e = rw e (take-length-append xs ys)

drop_at : (n : ℕ) (xs ys : List ℕ) → n ≡ length xs → drop n (xs ++ ys) ≡ ys
drop_at n xs ys e = rw e (drop-length-append xs ys)

insert_at-contents :
    (b : ℕ) (z : Stacks)
    → insert_at (length z.before) b (contents z) ≡ contents (record z { before = b ∷ z.before })
insert_at-contents b z =
    rw
      (
        take_at (length z.before) (reverse z.before) z.behind (sym (length-reverse z.before)),
        drop_at (length z.before) (reverse z.before) z.behind (sym (length-reverse z.before)),
        append_assoc (reverse z.before) (b ∷ []) z.behind,
      )
      refl

drop-suc : (n : ℕ) (x : ℕ) (xs ys : List ℕ) → n ≡ length xs → drop (suc n) (xs ++ x ∷ ys) ≡ ys
drop-suc n x [] ys e = rw e refl
drop-suc n x (y ∷ xs) ys e = rw e (drop-suc (length xs) x xs ys refl)

remove_at-contents :
    (x : ℕ) (xs ys : List ℕ)
    → remove_at (length xs) ((reverse xs ++ x ∷ []) ++ ys) ≡ reverse xs ++ ys
remove_at-contents x xs ys =
    rw
      (
        append_assoc (reverse xs) (x ∷ []) ys,
        take_at (length xs) (reverse xs) (x ∷ ys) (sym (length-reverse xs)),
        drop-suc (length xs) x (reverse xs) ys (sym (length-reverse xs)),
      )
      refl

printable-Represents :
    (t : TerminalState) (z : Stacks) (b : ℕ) (h : 32 ≤ b) (k : b < 127)
    → Represents t z
    → Represents (printable t b).0 (edit z (type_byte b h k))
unfolding printable
printable-Represents t z b h k r =
    let len : length t.line_buffer ≡ length z.before + length z.behind =
      rw (r.line) (length-contents z) in
    elim (Bool-cases (ltb (length z.before + length z.behind) 4096)) [
      | inl room ↦
          let free : leb 4096 (length t.line_buffer) ≡ false = ground (arith, room, len) in
          rw (room, free)
            (record {
              is_normal = r.is_normal;
              line = rw (r.line, r.cursor) (insert_at-contents b z);
              cursor = omega (arith, r.cursor);
            })
      | inr full ↦
          let none_left : leb 4096 (length t.line_buffer) ≡ true = ground (arith, full, len) in
          rw (full, none_left) r
    ]

backspace-Represents :
    (t : TerminalState) (before behind : List ℕ)
    → Represents t (record { before = before; behind = behind })
    → Represents (backspace t).0 (edit (record { before = before; behind = behind }) back)
unfolding backspace
backspace-Represents t [] behind r =
    let start : ltb 0 t.cursor_pos ≡ false = ground (arith, r.cursor) in rw start r
backspace-Represents t (x ∷ xs) behind r =
    let inside : ltb 0 t.cursor_pos ≡ true = ground (arith, r.cursor) in
    let place : t.cursor_pos - 1 ≡ length xs = omega (arith, r.cursor) in
    rw inside (record {
      is_normal = r.is_normal;
      line = rw (r.line, place) (remove_at-contents x xs behind);
      cursor = place;
    })

-- ESC, `[` and a final byte.
process_bytes-csi :
    (t : TerminalState) (b : ℕ)
    → t.esc_state ≡ EscapeState.normal
    → process_bytes t (27 ∷ b'[' ∷ b ∷ [])
      ≡ (csi_byte (record t { esc_state = EscapeState.normal }) b).0
unfolding process_bytes process_byte normal_byte
process_bytes-csi t b e = rw e refl

left-Represents :
    (t : TerminalState) (before behind : List ℕ)
    → Represents t (record { before = before; behind = behind })
    → Represents (csi_byte t b'D').0 (move_left before behind)
unfolding csi_byte
left-Represents t [] behind r =
    let start : ltb 0 t.cursor_pos ≡ false = ground (arith, r.cursor) in rw start r
left-Represents t (x ∷ xs) behind r =
    let inside : ltb 0 t.cursor_pos ≡ true = ground (arith, r.cursor) in
    rw inside (record {
      is_normal = r.is_normal;
      line = rw (r.line) (append_assoc (reverse xs) (x ∷ []) behind);
      cursor = omega (arith, r.cursor);
    })

right-Represents :
    (t : TerminalState) (before behind : List ℕ)
    → Represents t (record { before = before; behind = behind })
    → Represents (csi_byte t b'C').0 (move_right before behind)
unfolding csi_byte
right-Represents t before [] r =
    let edge : ltb t.cursor_pos (length t.line_buffer) ≡ false =
      ground (arith, r.cursor, r.line, length-contents (record { before = before; behind = [] })) in
    rw edge r
right-Represents t before (y ∷ ys) r =
    let inside : ltb t.cursor_pos (length t.line_buffer) ≡ true =
      ground
        (arith, r.cursor, r.line, length-contents (record { before = before; behind = y ∷ ys })) in
    rw inside (record {
      is_normal = r.is_normal;
      line = r.line ∙ sym (append_assoc (reverse before) (y ∷ []) ys);
      cursor = omega (arith, r.cursor);
    })

process_bytes-one :
    (t : TerminalState) (b : ℕ)
    → t.esc_state ≡ EscapeState.normal
    → process_bytes t (b ∷ []) ≡ (normal_byte t b).0
unfolding process_bytes process_byte
process_bytes-one t b e = rw e refl

process_bytes-append :
    (t : TerminalState) (bs cs : List ℕ)
    → process_bytes t (bs ++ cs) ≡ process_bytes (process_bytes t bs) cs
unfolding process_bytes
process_bytes-append t [] cs = refl
process_bytes-append t (b ∷ bs) cs = process_bytes-append (process_byte t b).0 bs cs

normal_byte-printable :
    (t : TerminalState) (b : ℕ) → 32 ≤ b → b < 127 → normal_byte t b ≡ printable t b
unfolding normal_byte
normal_byte-printable t b h k = ground (arith, h, k)

settled :
    (t : TerminalState) (z : Stacks)
    → Represents t z
    → Represents (record t { esc_state = EscapeState.normal }) z
settled t z r = record { is_normal = refl; line = r.line; cursor = r.cursor }

edit-Represents :
    (t : TerminalState) (z : Stacks) (k : Key)
    → Represents t z
    → Represents (process_bytes t (key_bytes k)) (edit z k)
unfolding normal_byte backspace kill_line
edit-Represents t z (type_byte b h k) r =
    rw (process_bytes-one t b r.is_normal, normal_byte-printable t b h k)
      (printable-Represents t z b h k r)
edit-Represents t z back r =
    rw (process_bytes-one t 127 r.is_normal) (backspace-Represents t z.before z.behind r)
edit-Represents t z left r =
    rw (process_bytes-csi t b'D' r.is_normal) (left-Represents _ z.before z.behind (settled t z r))
edit-Represents t z right r =
    rw (process_bytes-csi t b'C' r.is_normal) (right-Represents _ z.before z.behind (settled t z r))
edit-Represents t z kill r =
    rw (process_bytes-one t 21 r.is_normal)
      (record { is_normal = r.is_normal; line = refl; cursor = refl })

edits-Represents :
    (t : TerminalState) (z : Stacks) (ks : List Key)
    → Represents t z
    → Represents (process_bytes t (keys_bytes ks)) (edits z ks)
unfolding process_bytes
edits-Represents t z [] r = r
edits-Represents t z (k ∷ ks) r =
    rw (process_bytes-append t (key_bytes k) (keys_bytes ks))
      (edits-Represents (process_bytes t (key_bytes k)) (edit z k) ks (edit-Represents t z k r))

-- A terminal outside an escape sequence whose line and cursor are those of the two stacks keeps
-- them so under every sequence of printable bytes, backspaces, arrows to the left and right and
-- kills of the line, and Enter then completes the line that the stacks hold.
pub enter-edits :
    (t : TerminalState) (z : Stacks) (ks : List Key)
    → Represents t z
    → Represents (process_bytes t (keys_bytes ks)) (edits z ks)
      × ((process_byte (process_bytes t (keys_bytes ks)) 13).2
          ≡ some (from_utf8_lossy (contents (edits z ks))))
unfolding process_byte normal_byte enter
enter-edits t z ks r =
    let after = edits-Represents t z ks r in (after, rw (after.is_normal, after.line) refl)
