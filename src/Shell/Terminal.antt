-- ===== src/Shell/Terminal.antt =====
-- src/shell/terminal.rs: `TerminalState`. The line is a list of bytes, a line of the history a text.
pub mod Completion
pub mod Prefixes
pub mod Invariant
pub mod Editing
pub mod Recall
use s.Common.{
  ℕ, zero, suc, ◌+◌, ◌-◌, ◌≡◌, Bool, true, false, not, ◌&&◌, ◌||◌, List, [], ◌∷◌, ◌++◌, Option,
  none, some, ◌==◌, ltb, leb, ite, if◌then◌else◌, Text, Text-discrete, length, take, drop, get_or,
  replicate, codes,
}
use s.Common.Chars.{trim, trim_start, from_utf8_lossy, as_bytes}
use Completion.{completions, common_prefix}

abbrev pub max_line_length : ℕ
max_line_length = 4096

abbrev pub max_history : ℕ
max_history = 100

pub data EscapeState : Type 0 where
  normal got_esc got_csi : EscapeState

pub record TerminalState : Type 0 where
  pub line_buffer : List ℕ
  pub cursor_pos : ℕ
  pub cols : ℕ
  pub rows : ℕ
  pub autocomplete : Bool
  pub history : List Text
  pub history_index : Option ℕ
  pub saved_line : List ℕ
  pub esc_state : EscapeState

-- The new state, the echo and the completed line.
abbrev pub Outcome : Type 0
Outcome = TerminalState × List ℕ × Option Text

abbrev pub new : TerminalState
new = record {
  line_buffer = [];
  cursor_pos = 0;
  cols = 80;
  rows = 24;
  autocomplete = true;
  history = [];
  history_index = none;
  saved_line = [];
  esc_state = EscapeState.normal;
}

-- `Vec::insert` and `Vec::remove`, at places inside the list.
abbrev pub insert_at {ℓ} : {A : Type ℓ} → ℕ → A → List A → List A
insert_at i a xs = take i xs ++ a ∷ drop i xs

abbrev pub remove_at {ℓ} : {A : Type ℓ} → ℕ → List A → List A
remove_at i xs = take i xs ++ drop (suc i) xs

abbrev pub last_is : Text → List Text → Bool
last_is line [] = false
last_is line (h ∷ []) = ite (Text-discrete h line) true false
last_is line (h ∷ g ∷ hs) = last_is line (g ∷ hs)

abbrev pub is_blank : Text → Bool
is_blank [] = true
is_blank (c ∷ cs) = false

-- The history behind a line: without blank lines and repetitions, and with the oldest line gone
-- above the limit.
unfoldable pub push_history : List Text → Text → List Text
unfolding trim
push_history history line =
    let longer = history ++ line ∷ [] in
    if not (is_blank (trim line)) && not (last_is line history)
    then (if ltb max_history (length longer) then remove_at 0 longer else longer)
    else history

abbrev pub crlf : List ℕ
crlf = 13 ∷ 10 ∷ []

unfoldable pub enter : TerminalState → Outcome
unfolding push_history from_utf8_lossy
enter t =
    let line = from_utf8_lossy t.line_buffer in
    (
      record t {
        history = push_history t.history line;
        history_index = none;
        saved_line = [];
        line_buffer = [];
        cursor_pos = 0;
      },
      crlf,
      some line,
    )

-- Back, blank, back.
abbrev erase : List ℕ
erase = 8 ∷ 32 ∷ 8 ∷ []

unfoldable pub backspace : TerminalState → Outcome
backspace t =
    if ltb 0 t.cursor_pos
    then (
      record t {
        line_buffer = remove_at (t.cursor_pos - 1) t.line_buffer;
        cursor_pos = t.cursor_pos - 1;
      },
      erase,
      none,
    )
    else (t, [], none)

unfoldable pub interrupt : TerminalState → Outcome
interrupt t = (
  record t { history_index = none; saved_line = []; line_buffer = []; cursor_pos = 0 },
  b'^' ∷ b'C' ∷ crlf,
  some [],
)

abbrev pub is_empty : List ℕ → Bool
is_empty [] = true
is_empty (b ∷ bs) = false

unfoldable pub end_of_file : TerminalState → Outcome
end_of_file t = if is_empty t.line_buffer then (t, [], some (codes "exit")) else (t, [], none)

abbrev repeat : ℕ → List ℕ → List ℕ
repeat zero bs = []
repeat (suc n) bs = bs ++ repeat n bs

unfoldable pub kill_line : TerminalState → Outcome
kill_line t = (record t { line_buffer = []; cursor_pos = 0 }, repeat t.cursor_pos erase, none)

unfoldable pub clear_screen : TerminalState → Outcome
clear_screen t = (t, 27 ∷ codes "[2J" ++ 27 ∷ codes "[H" ++ t.line_buffer, none)

unfoldable pub printable : TerminalState → ℕ → Outcome
printable t byte = if leb max_line_length (length t.line_buffer) then (t, 7 ∷ [], none) else (
  record t {
    line_buffer = insert_at t.cursor_pos byte t.line_buffer;
    cursor_pos = t.cursor_pos + 1;
  },
  byte ∷ [],
  none,
)

unfoldable pub replace_line : TerminalState → List ℕ → TerminalState × List ℕ
replace_line t new_content =
    let old_len = length t.line_buffer in
    (
      record t { line_buffer = new_content; cursor_pos = length new_content },
      replicate t.cursor_pos 8 ++ replicate old_len 32 ++ replicate old_len 8 ++ new_content,
    )

abbrev replaced : TerminalState × List ℕ → Outcome
replaced (t, echo) = (t, echo, none)

-- The line of the history at an index becomes the line.
unfoldable pub show_history : TerminalState → ℕ → Outcome
unfolding replace_line as_bytes
show_history t i =
    replaced (replace_line (record t { history_index = some i }) (as_bytes (get_or t.history i [])))

abbrev pub history_prev_at : TerminalState → Option ℕ → Outcome
history_prev_at t none =
    show_history (record t { saved_line = t.line_buffer }) (length t.history - 1)
history_prev_at t (some zero) = (t, [], none)
history_prev_at t (some (suc i)) = show_history t i

unfoldable pub history_prev : TerminalState → Outcome
unfolding show_history
history_prev t = if length t.history == 0 then (t, [], none) else history_prev_at t t.history_index

abbrev pub history_next_at : TerminalState → Option ℕ → Outcome
history_next_at t none = (t, [], none)
history_next_at t (some i) =
    if leb (length t.history) (i + 1)
    then replaced (replace_line (record t { history_index = none; saved_line = [] }) t.saved_line)
    else show_history t (i + 1)

unfoldable pub history_next : TerminalState → Outcome
unfolding show_history replace_line
history_next t = history_next_at t t.history_index

-- The final byte of a sequence behind ESC and `[`.
unfoldable pub csi_byte : TerminalState → ℕ → Outcome
unfolding history_prev history_next
csi_byte t byte =
    if byte == b'A'
    then history_prev t
    else if byte == b'B'
    then history_next t
    else if byte == b'C'
    then (if ltb t.cursor_pos (length t.line_buffer)
        then (record t { cursor_pos = t.cursor_pos + 1 }, 27 ∷ codes "[C", none)
        else (t, [], none))
    else if byte == b'D'
    then (if ltb 0 t.cursor_pos
        then (record t { cursor_pos = t.cursor_pos - 1 }, 27 ∷ codes "[D", none)
        else (t, [], none))
    else (t, [], none)

-- Bytes that complete the line.
abbrev extend_line : TerminalState → List ℕ → Outcome
extend_line t bytes = (
  record t {
    line_buffer = t.line_buffer ++ bytes;
    cursor_pos = length t.line_buffer + length bytes;
  },
  bytes,
  none,
)

abbrev each_option : List Text → List ℕ
each_option [] = []
each_option (c ∷ cs) = as_bytes c ++ 32 ∷ 32 ∷ each_option cs

unfoldable pub complete_line : TerminalState → Text → List Text → Outcome
unfolding as_bytes common_prefix
complete_line t trimmed [] = (t, 7 ∷ [], none)
complete_line t trimmed (c ∷ []) =
    extend_line t (as_bytes (drop (length (as_bytes trimmed)) c ++ b' ' ∷ []))
complete_line t trimmed (c ∷ d ∷ cs) =
    let common = common_prefix (c ∷ d ∷ cs) in
    if ltb (length (as_bytes trimmed)) (length (as_bytes common))
    then extend_line t (as_bytes (drop (length (as_bytes trimmed)) common))
    else (t, crlf ++ each_option (c ∷ d ∷ cs) ++ crlf ++ t.line_buffer, none)

unfoldable pub handle_tab_completion : TerminalState → Outcome
unfolding complete_line completions trim_start from_utf8_lossy
handle_tab_completion t =
    let trimmed = trim_start (from_utf8_lossy t.line_buffer) in
    complete_line t trimmed (completions trimmed)

-- A byte outside the sequences that ESC begins.
unfoldable pub normal_byte : TerminalState → ℕ → Outcome
unfolding enter backspace interrupt end_of_file kill_line clear_screen handle_tab_completion
    printable
normal_byte t byte =
    if byte == 13 || byte == 10
    then enter t
    else if byte == 0x7f || byte == 8
    then backspace t
    else if byte == 3
    then interrupt t
    else if byte == 4
    then end_of_file t
    else if byte == 0x15
    then kill_line t
    else if byte == 12
    then clear_screen t
    else if byte == 9
    then (if t.autocomplete then handle_tab_completion t else (t, [], none))
    else if byte == 27
    then (record t { esc_state = EscapeState.got_esc }, [], none)
    else if leb 0x20 byte
    then printable t byte
    else (t, [], none)

abbrev pub in_state : TerminalState → EscapeState → ℕ → Outcome
in_state t EscapeState.normal byte = normal_byte t byte
in_state t EscapeState.got_esc byte =
    if byte == b'['
    then (record t { esc_state = EscapeState.got_csi }, [], none)
    else (record t { esc_state = EscapeState.normal }, [], none)
in_state t EscapeState.got_csi byte = csi_byte (record t { esc_state = EscapeState.normal }) byte

unfoldable pub process_byte : TerminalState → ℕ → Outcome
unfolding normal_byte csi_byte
process_byte t byte = in_state t t.esc_state byte

-- The state behind several bytes.
unfoldable pub process_bytes : TerminalState → List ℕ → TerminalState
unfolding process_byte
process_bytes t [] = t
process_bytes t (b ∷ bs) = process_bytes (process_byte t b).0 bs

unfoldable pub set_size : TerminalState → ℕ → ℕ → TerminalState
set_size t cols rows = record t { cols = cols; rows = rows }

unfoldable pub current_line : TerminalState → Text
unfolding from_utf8_lossy
current_line t = from_utf8_lossy t.line_buffer
