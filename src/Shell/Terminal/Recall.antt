-- ===== src/Shell/Terminal/Recall.antt =====
-- A line that was entered comes back with the arrow up.
use s.Common.{
  suc, ◌-◌, ◌<◌, ◌≡◌, refl, sym, ap, ◌∙◌, inl, inr, true, false, List, [], ◌∷◌, ◌++◌, none, some,
  ◌==◌, ltb, Text, length, get_or, arith, Bool-cases, All, length-append,
}
use s.Common.Chars.{trim, from_utf8_lossy, as_bytes, IsAscii, from_utf8_lossy-ascii, as_bytes-ascii}
use s.Shell.Terminal.{
  TerminalState, EscapeState, remove_at, last_is, is_blank, push_history, process_byte,
  process_bytes, normal_byte, csi_byte, enter, history_prev, show_history, replace_line,
}

-- The last line of a list that has one.
abbrev last : List Text → Text
last xs = get_or xs (length xs - 1) []

get_or-append : (xs : List Text) (line : Text) → get_or (xs ++ line ∷ []) (length xs) [] ≡ line
get_or-append [] line = refl
get_or-append (x ∷ xs) line = get_or-append xs line

last-append : (xs : List Text) (line : Text) → last (xs ++ line ∷ []) ≡ line
last-append xs line =
    let place : length (xs ++ line ∷ []) - 1 ≡ length xs =
      omega (arith, length-append xs (line ∷ [])) in
    rw place (get_or-append xs line)

IsLast : Text → List Text → Type 0
IsLast line xs = (last xs ≡ line) × (0 < length xs)

append-IsLast : (xs : List Text) (line : Text) → IsLast line (xs ++ line ∷ [])
unfolding IsLast
append-IsLast xs line = (last-append xs line, omega (arith, length-append xs (line ∷ [])))

last_is-IsLast : (line : Text) (xs : List Text) → last_is line xs ≡ true → IsLast line xs
unfolding IsLast
last_is-IsLast line [] h = cc
last_is-IsLast line (x ∷ []) h = (ground (arith, h), omega arith)
last_is-IsLast line (x ∷ y ∷ ys) h =
    let before : suc (length ys) - 1 ≡ length ys = omega arith in
    let here : suc (suc (length ys)) - 1 ≡ suc (length ys) = omega arith in
    (
      ap (λ i. get_or (x ∷ y ∷ ys) i []) here
          ∙ sym (ap (λ i. get_or (y ∷ ys) i []) before)
          ∙ (last_is-IsLast line (y ∷ ys) h).0,
      omega arith,
    )

remove_first-IsLast :
    (xs : List Text) (line : Text)
    → 1 < length (xs ++ line ∷ [])
    → IsLast line (remove_at 0 (xs ++ line ∷ []))
remove_first-IsLast [] line h = absurd (omega (arith, h))
remove_first-IsLast (x ∷ xs) line h = append-IsLast xs line

push_history-IsLast :
    (history : List Text) (line : Text)
    → is_blank (trim line) ≡ false
    → IsLast line (push_history history line)
unfolding push_history
push_history-IsLast history line h = elim (Bool-cases (last_is line history)) [
  | inl again ↦ rw (h, again) (last_is-IsLast line history again)
  | inr fresh ↦ elim (Bool-cases (ltb 100 (length (history ++ line ∷ [])))) [
    | inl full ↦ rw (h, fresh, full) (remove_first-IsLast history line (ground (arith, full)))
    | inr room ↦ rw (h, fresh, room) (append-IsLast history line)
  ]
]

-- The arrow up after Enter.
up : TerminalState → TerminalState
up t = process_bytes t (13 ∷ 27 ∷ b'[' ∷ b'A' ∷ [])

up_lem :
    (t : TerminalState) → t.esc_state ≡ EscapeState.normal → up t ≡ (history_prev (enter t).0).0
unfolding up process_bytes process_byte normal_byte csi_byte enter
up_lem t e = rw e refl

up-line :
    (t : TerminalState) (line : Text)
    → IsLast line t.history
    → t.history_index ≡ none
    → (history_prev t).0.line_buffer ≡ as_bytes line
unfolding history_prev IsLast show_history replace_line
up-line t line h n =
    let found : (length t.history == 0) ≡ false = ground (arith, h.1) in rw (found, n, h.0) refl

-- A line of ASCII characters that are not all blank is completed as it stands by Enter, and the
-- arrow up then brings it back into the line.
pub enter-up :
    (t : TerminalState)
    → t.esc_state ≡ EscapeState.normal
    → All IsAscii t.line_buffer
    → is_blank (trim t.line_buffer) ≡ false
    → ((process_byte t 13).2 ≡ some t.line_buffer)
      × ((process_bytes t (13 ∷ 27 ∷ b'[' ∷ b'A' ∷ [])).line_buffer ≡ t.line_buffer)
unfolding process_byte normal_byte enter up
enter-up t e a b =
    let whole : from_utf8_lossy t.line_buffer ≡ t.line_buffer =
      from_utf8_lossy-ascii t.line_buffer a in
    let kept : IsLast t.line_buffer (enter t).0.history =
      rw whole (push_history-IsLast t.history t.line_buffer b) in
    (
      rw (e, whole) refl,
      ap (λ u. u.line_buffer) (up_lem t e)
          ∙ up-line (enter t).0 t.line_buffer kept refl
          ∙ as_bytes-ascii t.line_buffer a,
    )
