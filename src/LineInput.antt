-- ===== src/LineInput.antt =====
-- kernel/kernel/input/keyboard_line.c: the line editor over the keyboard's characters.
-- `keyboard_wait_character` is a list of its results in turn, `none` where it fails; the list ends
-- where the task would wait for ever. `length` is not NULL, and `capacity` is a `size_t`.
pub mod Editor
pub mod Refine
use meaty_skeleton.Prelude.{
  ℕ, ◌+◌, ◌-◌, Bool, true, false, ◌&&◌, ◌||◌, not, Option, none, some, List, [], ◌∷◌, ◌++◌, ltb,
  leb, ◌==◌, if◌then◌else◌, update,
}

-- A `char` is its unsigned value.
pub line_character_is_printable : ℕ → Bool
line_character_is_printable value = leb 0x20 value && leb value 0x7e

-- The local variables, the caller's buffer, and what went to the terminal.
pub record Line : Type 0 where
  pub buffer : ℕ → ℕ
  pub position : ℕ
  pub printed : List ℕ

abbrev pub terminal_putchar : Bool → ℕ → List ℕ → List ℕ
terminal_putchar echo c printed = if echo then printed ++ c ∷ [] else printed

-- The body of the loop for a character other than Enter.
pub edit : ℕ → Bool → ℕ → Line → Line
edit capacity echo c l =
    if c == 0x08
    then if l.position == 0 then l else record {
      buffer = update l.buffer (l.position - 1) 0;
      position = l.position - 1;
      printed = terminal_putchar echo 0x08 l.printed;
    }
    else if not (line_character_is_printable c)
    then l
    else if leb (capacity - 1) l.position
    then l
    else record {
      buffer = update (update l.buffer l.position c) (l.position + 1) 0;
      position = l.position + 1;
      printed = terminal_putchar echo c l.printed;
    }

-- How the function ends: with its result, `*length`, the buffer and the terminal.
pub data LineResult : Type 0 where
  returned : Bool → Line → LineResult
  waiting : Line → LineResult

abbrev pub terminate : Line → Line
terminate l = record l { buffer = update l.buffer l.position 0 }

pub read_from : ℕ → Bool → List (Option ℕ) → Line → LineResult
read_from capacity echo [] l = waiting l
read_from capacity echo (none ∷ input) l = returned false (terminate l)
read_from capacity echo (some c ∷ input) l =
    let rest = read_from capacity echo input (edit capacity echo c l) in
    if c == 0x0a
    then returned true (record (terminate l) { printed = terminal_putchar echo 0x0a l.printed })
    else rest

-- `none` is a return of false before anything is written.
pub read_line : Option (ℕ → ℕ) → ℕ → Bool → List (Option ℕ) → Option LineResult
read_line none capacity echo input = none
read_line (some buffer) capacity echo input =
    if capacity == 0
    then none
    else some (
        read_from capacity echo input
          (record { buffer = update buffer 0 0; position = 0; printed = [] }))
