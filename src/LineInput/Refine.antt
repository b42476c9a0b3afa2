-- ===== src/LineInput/Refine.antt =====
-- `keyboard_read_line` implements the editor: its buffer holds the text, and the screen shows it.
use mathlib.Core.Path.{subst}
use mathlib.Core.List.{append-nil}
use meaty_skeleton.Prelude.{
  ℕ, zero, suc, ◌+◌, ◌-◌, ◌≤◌, ◌<◌, ◌≡◌, ◌≢◌, refl, sym, ◌∙◌, ap, inl, inr, Bool, true, false,
  Option, none, some, List, [], ◌∷◌, ◌++◌, ◌==◌, Bool-cases, arith, if◌then◌else◌, length,
  length-append, update,
}
use meaty_skeleton.LineInput.{
  Line, terminal_putchar, terminate, edit, LineResult, returned, waiting, read_from, read_line,
}
use meaty_skeleton.LineInput.Editor.{
  drop_last, drop_last-snoc, type_key, type_line, AllPrintable, type_line-AllPrintable,
}

-- The first `n` characters of a buffer.
abbrev pub prefix : (ℕ → ℕ) → ℕ → List ℕ
prefix buffer zero = []
prefix buffer (suc n) = prefix buffer n ++ buffer n ∷ []

abbrev pub text_of : Line → List ℕ
text_of l = prefix l.buffer l.position

prefix-update :
    (buffer : ℕ → ℕ) (n i v : ℕ) → n ≤ i → prefix (update buffer i v) n ≡ prefix buffer n
prefix-update buffer zero i v h = refl
prefix-update buffer (suc n) i v h = ground (arith, prefix-update buffer n i v (omega arith))

length-prefix : (buffer : ℕ → ℕ) (n : ℕ) → length (prefix buffer n) ≡ n
length-prefix buffer zero = refl
length-prefix buffer (suc n) =
    omega (arith, length-append (prefix buffer n) (buffer n ∷ []), length-prefix buffer n)

prefix_of_pos :
    (buffer : ℕ → ℕ) (n : ℕ)
    → n ≢ 0
    → prefix buffer n ≡ prefix buffer (n - 1) ++ buffer (n - 1) ∷ []
prefix_of_pos buffer zero h = absurd (h refl)
prefix_of_pos buffer (suc n) h =
    let e : n ≡ suc n - 1 = omega arith in ap (λ k. prefix buffer k ++ buffer k ∷ []) e

prefix-append :
    (buffer : ℕ → ℕ) (n c : ℕ)
    → prefix (update (update buffer n c) (n + 1) 0) (n + 1) ≡ prefix buffer n ++ c ∷ []
prefix-append buffer n c =
    let e : n + 1 ≡ suc n = omega arith in
    ap (prefix (update (update buffer n c) (n + 1) 0)) e
    ∙ ground (
      arith,
      prefix-update (update buffer n c) n (n + 1) 0 (omega arith),
      prefix-update buffer n n c (omega arith),
    )

prefix-erase :
    (buffer : ℕ → ℕ) (n : ℕ)
    → n ≢ 0
    → prefix (update buffer (n - 1) 0) (n - 1) ≡ drop_last (prefix buffer n)
prefix-erase buffer n h =
    prefix-update buffer (n - 1) (n - 1) 0 (omega arith)
    ∙ sym (
        ap drop_last (prefix_of_pos buffer n h)
        ∙ drop_last-snoc (buffer (n - 1)) (prefix buffer (n - 1)))

prefix-empty : (buffer : ℕ → ℕ) (n : ℕ) → n ≡ 0 → drop_last (prefix buffer n) ≡ prefix buffer n
prefix-empty buffer n e = rw e refl

-- The cursor is inside the buffer and on the final zero, and nothing was written behind the buffer.
pub record IsLine (capacity : ℕ) (original : ℕ → ℕ) (l : Line) : Type 0 where
  pub inside : l.position < capacity
  pub terminated : l.buffer l.position ≡ 0
  pub untouched : (i : ℕ) → capacity ≤ i → l.buffer i ≡ original i

edit-IsLine :
    (capacity c : ℕ) (echo : Bool) (original : ℕ → ℕ) (l : Line)
    → IsLine capacity original l
    → IsLine capacity original (edit capacity echo c l)
unfolding edit
edit-IsLine capacity c echo original l h = record {
  inside = ground arith;
  terminated = ground arith;
  untouched = λ i k. ground (arith, h.untouched i k);
}

edit-type_key :
    (capacity c : ℕ) (echo : Bool) (l : Line)
    → text_of (edit capacity echo c l) ≡ type_key capacity c (text_of l)
unfolding edit type_key
edit-type_key capacity c echo l = ground (
  arith,
  length-prefix l.buffer l.position,
  prefix-append l.buffer l.position c,
  prefix-erase l.buffer l.position,
  prefix-empty l.buffer l.position,
)

-- What a terminal shows after these characters: Backspace takes the last one away.
abbrev pub show_char : List ℕ → ℕ → List ℕ
show_char text c = if c == 0x08 then drop_last text else text ++ c ∷ []

pub screen : List ℕ → List ℕ → List ℕ
screen text [] = text
screen text (c ∷ cs) = screen (show_char text c) cs

screen-snoc : (text cs : List ℕ) (c : ℕ) → screen text (cs ++ c ∷ []) ≡ show_char (screen text cs) c
unfolding screen
screen-snoc text [] c = refl
screen-snoc text (x ∷ cs) c = screen-snoc (show_char text x) cs c

-- With echo, an edit does to the screen what it does to the text.
edit-screen :
    (capacity c : ℕ) (l : Line)
    → screen [] l.printed ≡ text_of l
    → screen [] (edit capacity true c l).printed ≡ text_of (edit capacity true c l)
unfolding edit
edit-screen capacity c l e = ground (
  arith,
  screen-snoc [] l.printed 0x08,
  screen-snoc [] l.printed c,
  prefix-append l.buffer l.position c,
  prefix-erase l.buffer l.position,
)

-- What the screen shows beside the text: the line feed of Enter.
abbrev pub ending : Option Bool → List ℕ
ending (some true) = 0x0a ∷ []
ending _ = []

-- The final state agrees with how the line was typed: the buffer holds the text and a zero behind it,
-- all of it inside the buffer, and with echo the screen shows the text.
pub record Typed (capacity : ℕ) (original : ℕ → ℕ) (echo : Bool) (typed : Option Bool × List ℕ)
    (l : Line) : Type 0 where
  pub line : IsLine capacity original l
  pub text : text_of l ≡ typed.1
  pub shows : echo ≡ true → screen [] l.printed ≡ typed.1 ++ ending typed.0

abbrev pub Ends : ℕ → (ℕ → ℕ) → Bool → Option Bool × List ℕ → LineResult → Type 0
Ends capacity original echo typed (returned b l) =
    (typed.0 ≡ some b) × Typed capacity original echo typed l
Ends capacity original echo typed (waiting l) =
    (typed.0 ≡ none) × Typed capacity original echo typed l

terminate-IsLine :
    (capacity : ℕ) (original : ℕ → ℕ) (l : Line)
    → IsLine capacity original l
    → IsLine capacity original (terminate l)
terminate-IsLine capacity original l h = record {
  inside = h.inside;
  terminated = ground arith;
  untouched = λ i k. ground (arith, h.untouched i k, h.inside);
}

enter-shows :
    (echo : Bool) (l : Line)
    → (echo ≡ true → screen [] l.printed ≡ text_of l)
    → echo ≡ true
    → screen [] (terminal_putchar echo 0x0a l.printed) ≡ text_of l ++ 0x0a ∷ []
enter-shows true l h e = screen-snoc [] l.printed 0x0a ∙ ap (λ t. t ++ 0x0a ∷ []) (h refl)
enter-shows false l h e = cc

read_from-Ends :
    (capacity : ℕ) (original : ℕ → ℕ) (echo : Bool) (input : List (Option ℕ)) (l : Line)
    → IsLine capacity original l
    → (echo ≡ true → screen [] l.printed ≡ text_of l)
    → Ends capacity original echo
        (type_line capacity input (text_of l))
        (read_from capacity echo input l)
unfolding read_from type_line
read_from-Ends capacity original echo [] l h s =
    (refl, record { line = h; text = refl; shows = λ e. s e ∙ sym (append-nil (text_of l)) })
read_from-Ends capacity original echo (none ∷ input) l h s = (
  refl,
  record {
    line = terminate-IsLine capacity original l h;
    text = prefix-update l.buffer l.position l.position 0 (omega arith);
    shows = λ e. s e ∙ sym (append-nil (text_of l));
  },
)
read_from-Ends capacity original echo (some c ∷ input) l h s = elim (Bool-cases (c == 0x0a)) [
  | inl e ↦ rw e (
    refl,
    record {
      line =
          let t = terminate-IsLine capacity original l h in
          record { inside = t.inside; terminated = t.terminated; untouched = t.untouched };
      text = prefix-update l.buffer l.position l.position 0 (omega arith);
      shows = enter-shows echo l s;
    },
  )
  | inr n ↦ rw n (
      subst
        (λ t.
          Ends capacity original echo (type_line capacity input t)
            (read_from capacity echo input (edit capacity echo c l)))
        (edit-type_key capacity c echo l)
        (read_from-Ends capacity original echo input (edit capacity echo c l)
          (edit-IsLine capacity c echo original l h) (shown echo s)))
]
  where
    shown :
        (b : Bool)
        → (b ≡ true → screen [] l.printed ≡ text_of l)
        → b ≡ true
        → screen [] (edit capacity b c l).printed ≡ text_of (edit capacity b c l)
    shown true k e = edit-screen capacity c l (k refl)
    shown false k e = cc

-- `keyboard_read_line` with a buffer of at least one byte ends as the editor does on the same keys:
-- true at Enter, false when the keyboard fails, and waiting while the keys last. The buffer then holds
-- the edited text and its final zero, nothing is written behind the `capacity` bytes, every character
-- of the text is printable, and with echo the screen shows exactly the text, and behind it the line
-- feed of Enter.
pub read_line-Ends :
    (buffer : ℕ → ℕ) (capacity : ℕ) (echo : Bool) (input : List (Option ℕ))
    → 0 < capacity
    → (r : LineResult) × (read_line (some buffer) capacity echo input ≡ some r)
      × Ends capacity buffer echo (type_line capacity input []) r
      × AllPrintable (type_line capacity input []).1
unfolding read_line screen
read_line-Ends buffer capacity echo input h = (
  read_from capacity echo input start,
  ground arith,
  read_from-Ends capacity buffer echo input start
      (record { inside = h; terminated = refl; untouched = λ i k. ground arith }) (λ e. refl),
  type_line-AllPrintable capacity input [] tt,
)
  where
    start : Line
    start = record { buffer = update buffer 0 0; position = 0; printed = [] }
