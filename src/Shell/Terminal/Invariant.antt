-- ===== src/Shell/Terminal/Invariant.antt =====
-- The cursor stays in the line, and the place in the history in the history.
use s.Common.{
  ℕ, zero, suc, ◌+◌, ◌-◌, ◌≤◌, ◌<◌, ◌≡◌, refl, inl, inr, Bool, true, false, ◌||◌, List, [], ◌∷◌,
  ◌++◌, Option, none, some, ◌==◌, ltb, leb, if◌then◌else◌, Text, All, length, take, drop, arith,
  Bool-cases, length-append, length-take, length-drop,
}
use s.Common.Chars.{trim_start, as_bytes, from_utf8_lossy}
use s.Shell.Terminal.Completion.{completions, common_prefix}
use s.Shell.Terminal.Prefixes.{Extends, completions-Extends}
use s.Shell.Terminal.{
  TerminalState, EscapeState, Outcome, new, max_history, insert_at, remove_at, push_history, enter,
  backspace, interrupt, end_of_file, kill_line, clear_screen, printable, replace_line, show_history,
  history_prev, history_next, history_prev_at, history_next_at, is_empty, csi_byte, complete_line,
  handle_tab_completion, normal_byte, in_state, process_byte, set_size,
}

abbrev pub InHistory : Option ℕ → List Text → Type 0
InHistory none history = Unit
InHistory (some i) history = i < length history

pub record WellFormed (t : TerminalState) : Type 0 where
  pub cursor_in_line : t.cursor_pos ≤ length t.line_buffer
  pub index_in_history : InHistory t.history_index t.history
  pub history_bounded : length t.history ≤ max_history

length-remove_at :
    {A : Type 0} (i : ℕ) (xs : List A) → i < length xs → length (remove_at i xs) ≡ length xs - 1
length-remove_at i xs h =
    ground
      (arith, length-append (take i xs) (drop (suc i) xs), length-take i xs, length-drop (suc i) xs)

length-insert_at :
    {A : Type 0} (i : ℕ) (a : A) (xs : List A)
    → i ≤ length xs
    → length (insert_at i a xs) ≡ length xs + 1
length-insert_at i a xs h =
    ground (arith, length-append (take i xs) (a ∷ drop i xs), length-take i xs, length-drop i xs)

push_history-length :
    (history : List Text) (line : Text)
    → length history ≤ max_history
    → length (push_history history line) ≤ max_history
unfolding push_history
push_history-length history line h =
    ground (arith, length-append history (line ∷ []), length-remove_at 0 (history ++ line ∷ []))

enter-WellFormed : (t : TerminalState) → WellFormed t → WellFormed (enter t).0
unfolding enter
enter-WellFormed t w = record {
  cursor_in_line = omega arith;
  index_in_history = tt;
  history_bounded = push_history-length t.history (from_utf8_lossy t.line_buffer) w.history_bounded;
}

backspace-WellFormed : (t : TerminalState) → WellFormed t → WellFormed (backspace t).0
unfolding backspace
backspace-WellFormed t w = elim (Bool-cases (ltb 0 t.cursor_pos)) [
  | inl pos ↦ rw pos (record {
    cursor_in_line =
        ground (arith, pos, w.cursor_in_line, length-remove_at (t.cursor_pos - 1) t.line_buffer);
    index_in_history = w.index_in_history;
    history_bounded = w.history_bounded;
  })
  | inr start ↦ rw start w
]

printable-WellFormed : (t : TerminalState) (b : ℕ) → WellFormed t → WellFormed (printable t b).0
unfolding printable
printable-WellFormed t b w = elim (Bool-cases (leb 4096 (length t.line_buffer))) [
  | inl full ↦ rw full w
  | inr room ↦ rw room (record {
    cursor_in_line =
        ground (arith, w.cursor_in_line, length-insert_at t.cursor_pos b t.line_buffer);
    index_in_history = w.index_in_history;
    history_bounded = w.history_bounded;
  })
]

show_history-WellFormed :
    (t : TerminalState) (i : ℕ)
    → i < length t.history
    → WellFormed t
    → WellFormed (show_history t i).0
unfolding show_history replace_line
show_history-WellFormed t i h w = record {
  cursor_in_line = omega arith;
  index_in_history = h;
  history_bounded = w.history_bounded;
}

history_prev_at-WellFormed :
    (t : TerminalState) (index : Option ℕ)
    → (length t.history == 0) ≡ false
    → InHistory index t.history
    → WellFormed t
    → WellFormed (history_prev_at t index).0
unfolding show_history replace_line
history_prev_at-WellFormed t none n h w = record {
  cursor_in_line = omega arith;
  index_in_history = ground (arith, n);
  history_bounded = w.history_bounded;
}
history_prev_at-WellFormed t (some zero) n h w = w
history_prev_at-WellFormed t (some (suc i)) n h w = record {
  cursor_in_line = omega arith;
  index_in_history = omega (arith, h);
  history_bounded = w.history_bounded;
}

history_prev-WellFormed : (t : TerminalState) → WellFormed t → WellFormed (history_prev t).0
unfolding history_prev
history_prev-WellFormed t w = elim (Bool-cases (length t.history == 0)) [
  | inl empty ↦ rw empty w
  | inr some_lines ↦
      rw some_lines (history_prev_at-WellFormed t t.history_index some_lines w.index_in_history w)
]

history_next_at-WellFormed :
    (t : TerminalState) (index : Option ℕ) → WellFormed t → WellFormed (history_next_at t index).0
unfolding show_history replace_line
history_next_at-WellFormed t none w = w
history_next_at-WellFormed t (some i) w = elim (Bool-cases (leb (length t.history) (i + 1))) [
  | inl past ↦ rw past (record {
    cursor_in_line = omega arith;
    index_in_history = tt;
    history_bounded = w.history_bounded;
  })
  | inr inside ↦ rw inside (record {
    cursor_in_line = omega arith;
    index_in_history = ground (arith, inside);
    history_bounded = w.history_bounded;
  })
]

history_next-WellFormed : (t : TerminalState) → WellFormed t → WellFormed (history_next t).0
unfolding history_next
history_next-WellFormed t w = history_next_at-WellFormed t t.history_index w

-- Only the cursor moves.
moved-WellFormed :
    (t : TerminalState) (c : ℕ)
    → c ≤ length t.line_buffer
    → WellFormed t
    → WellFormed (record t { cursor_pos = c })
moved-WellFormed t c h w = record {
  cursor_in_line = h;
  index_in_history = w.index_in_history;
  history_bounded = w.history_bounded;
}

csi_byte-WellFormed : (t : TerminalState) (b : ℕ) → WellFormed t → WellFormed (csi_byte t b).0
unfolding csi_byte
csi_byte-WellFormed t b w = elim (Bool-cases (b == b'A')) [
  | inl up ↦ rw up (history_prev-WellFormed t w)
  | inr n1 ↦ rw n1 (elim (Bool-cases (b == b'B')) [
    | inl down ↦ rw down (history_next-WellFormed t w)
    | inr n2 ↦ rw n2 (elim (Bool-cases (b == b'C')) [
      | inl right ↦ rw right (elim (Bool-cases (ltb t.cursor_pos (length t.line_buffer))) [
        | inl room ↦ rw room (moved-WellFormed t (t.cursor_pos + 1) (ground (arith, room)) w)
        | inr edge ↦ rw edge w
      ])
      | inr n3 ↦ rw n3 (elim (Bool-cases (b == b'D')) [
        | inl left ↦ rw left (elim (Bool-cases (ltb 0 t.cursor_pos)) [
          | inl room ↦
              rw room (moved-WellFormed t (t.cursor_pos - 1) (omega (arith, w.cursor_in_line)) w)
          | inr edge ↦ rw edge w
        ])
        | inr n4 ↦ rw n4 w
      ])
    ])
  ])
]

extend-WellFormed :
    (t : TerminalState) (bs : List ℕ)
    → WellFormed t
    → WellFormed (record t {
      line_buffer = t.line_buffer ++ bs;
      cursor_pos = length t.line_buffer + length bs;
    })
extend-WellFormed t bs w = record {
  cursor_in_line = omega (arith, length-append t.line_buffer bs);
  index_in_history = w.index_in_history;
  history_bounded = w.history_bounded;
}

complete_line-WellFormed :
    (t : TerminalState) (trimmed : Text) (cs : List Text)
    → WellFormed t
    → WellFormed (complete_line t trimmed cs).0
unfolding complete_line
complete_line-WellFormed t trimmed [] w = w
complete_line-WellFormed t trimmed (c ∷ []) w =
    extend-WellFormed t (as_bytes (drop (length (as_bytes trimmed)) c ++ b' ' ∷ [])) w
complete_line-WellFormed t trimmed (c ∷ d ∷ cs) w =
    let common : Text = common_prefix (c ∷ d ∷ cs) in
    elim (Bool-cases (ltb (length (as_bytes trimmed)) (length (as_bytes common)))) [
      | inl longer ↦
          rw longer (extend-WellFormed t (as_bytes (drop (length (as_bytes trimmed)) common)) w)
      | inr same ↦ rw same w
    ]

cleared-WellFormed :
    (t : TerminalState) (index : Option ℕ) (saved : List ℕ)
    → InHistory index t.history
    → WellFormed t
    → WellFormed
        (record t { line_buffer = []; cursor_pos = 0; history_index = index; saved_line = saved })
cleared-WellFormed t index saved h w = record {
  cursor_in_line = omega arith;
  index_in_history = h;
  history_bounded = w.history_bounded;
}

end_of_file-same : (t : TerminalState) → (end_of_file t).0 ≡ t
unfolding end_of_file
end_of_file-same t = elim (Bool-cases (is_empty t.line_buffer)) [
  | inl e ↦ rw e refl
  | inr e ↦ rw e refl
]

escaped-WellFormed :
    (t : TerminalState) (e : EscapeState) → WellFormed t → WellFormed (record t { esc_state = e })
escaped-WellFormed t e w = record {
  cursor_in_line = w.cursor_in_line;
  index_in_history = w.index_in_history;
  history_bounded = w.history_bounded;
}

-- An outcome whose state is well-formed.
record Kept (o : Outcome) : Type 0 where
  state : WellFormed o.0

Kept-if : (b : Bool) {x y : Outcome} → Kept x → Kept y → Kept (if b then x else y)
Kept-if true p q = p
Kept-if false p q = q

abbrev kept : (o : Outcome) → WellFormed o.0 → Kept o
kept o w = record { state = w }

end_of_file-WellFormed : (t : TerminalState) → WellFormed t → WellFormed (end_of_file t).0
end_of_file-WellFormed t w = rw (end_of_file-same t) w

interrupt-WellFormed : (t : TerminalState) → WellFormed t → WellFormed (interrupt t).0
unfolding interrupt
interrupt-WellFormed t w = cleared-WellFormed t none [] tt w

kill_line-WellFormed : (t : TerminalState) → WellFormed t → WellFormed (kill_line t).0
unfolding kill_line
kill_line-WellFormed t w = cleared-WellFormed t t.history_index t.saved_line w.index_in_history w

clear_screen-WellFormed : (t : TerminalState) → WellFormed t → WellFormed (clear_screen t).0
unfolding clear_screen
clear_screen-WellFormed t w = w

tab-WellFormed : (t : TerminalState) → WellFormed t → WellFormed (handle_tab_completion t).0
unfolding handle_tab_completion
tab-WellFormed t w =
    let trimmed : Text = trim_start (from_utf8_lossy t.line_buffer) in
    complete_line-WellFormed t trimmed (completions trimmed) w

normal_byte-Kept : (t : TerminalState) (b : ℕ) → WellFormed t → Kept (normal_byte t b)
unfolding normal_byte
normal_byte-Kept t b w = Kept-if (b == 13 || b == 10) (kept (enter t) (enter-WellFormed t w)) (
    Kept-if (b == 0x7f || b == 8) (kept (backspace t) (backspace-WellFormed t w)) (
      Kept-if (b == 3) (kept (interrupt t) (interrupt-WellFormed t w)) (
        Kept-if (b == 4) (kept (end_of_file t) (end_of_file-WellFormed t w)) (
          Kept-if (b == 0x15) (kept (kill_line t) (kill_line-WellFormed t w)) (
            Kept-if (b == 12) (kept (clear_screen t) (clear_screen-WellFormed t w)) (
              Kept-if (b == 9)
                (Kept-if t.autocomplete (kept (handle_tab_completion t) (tab-WellFormed t w))
                  (kept (t, [], none) w))
                (Kept-if (b == 27)
                  (kept (record t { esc_state = EscapeState.got_esc }, [], none)
                    (escaped-WellFormed t EscapeState.got_esc w))
                  (Kept-if (leb 0x20 b) (kept (printable t b) (printable-WellFormed t b w))
                    (kept (t, [], none) w)))))))))

in_state-Kept : (t : TerminalState) (e : EscapeState) (b : ℕ) → WellFormed t → Kept (in_state t e b)
in_state-Kept t EscapeState.normal b w = normal_byte-Kept t b w
in_state-Kept t EscapeState.got_esc b w =
    Kept-if (b == b'[') (record { state = escaped-WellFormed t EscapeState.got_csi w })
      (record { state = escaped-WellFormed t EscapeState.normal w })
in_state-Kept t EscapeState.got_csi b w = record {
  state =
      csi_byte-WellFormed (record t { esc_state = EscapeState.normal }) b
        (escaped-WellFormed t EscapeState.normal w);
}

-- What happens to a terminal: a byte of input, or a new size of the window.
pub data Step : TerminalState → TerminalState → Type 0 where
  input : (t : TerminalState) (b : ℕ) → Step t (process_byte t b).0
  resize : (t : TerminalState) (cols rows : ℕ) → Step t (set_size t cols rows)

pub data Reachable : TerminalState → Type 0 where
  initial : Reachable new
  later : {t u : TerminalState} → Reachable t → Step t u → Reachable u

Step-WellFormed : {t u : TerminalState} → Step t u → WellFormed t → WellFormed u
unfolding process_byte set_size
Step-WellFormed (input t b) w = (in_state-Kept t t.esc_state b w).state
Step-WellFormed (resize t cols rows) w = record {
  cursor_in_line = w.cursor_in_line;
  index_in_history = w.index_in_history;
  history_bounded = w.history_bounded;
}

state-WellFormed : {t : TerminalState} → Reachable t → WellFormed t
state-WellFormed initial = record {
  cursor_in_line = omega arith;
  index_in_history = tt;
  history_bounded = omega arith;
}
state-WellFormed (later r step) = Step-WellFormed step (state-WellFormed r)

-- What is typed so far, as the completion sees it.
unfoldable pub typed_text : TerminalState → Text
unfolding trim_start from_utf8_lossy
typed_text t = trim_start (from_utf8_lossy t.line_buffer)

-- In every state that a new terminal reaches by bytes of input and changes of size, in any order,
-- the cursor stands in the line or at its end, the place of a navigation is inside the history, and
-- the history has at most 100 lines; and every word that completion offers for the line begins with
-- what was typed, so that the part behind it, which the code cuts off, exists.
pub Reachable-WellFormed :
    {t : TerminalState}
    → Reachable t
    → WellFormed t × All (Extends (typed_text t)) (completions (typed_text t))
Reachable-WellFormed {t = t} r = (state-WellFormed r, completions-Extends (typed_text t))
