-- ===== src/Tests/Input.antt =====
-- The line editor on a short line.
use meaty_skeleton.Prelude.{ℕ, ◌≡◌, true, Option, some, List, [], ◌∷◌, arith}
use meaty_skeleton.LineInput.{LineResult, read_line}
use meaty_skeleton.LineInput.Editor.{type_line, AllPrintable}
use meaty_skeleton.LineInput.Refine.{Ends, read_line-Ends}

-- `a`, `b`, Backspace, `c`, Enter.
abbrev keys : List (Option ℕ)
keys = some 0x61 ∷ some 0x62 ∷ some 0x08 ∷ some 0x63 ∷ some 0x0a ∷ []

read_line_example :
    (r : LineResult) × (read_line (some (λ i. 0)) 8 true keys ≡ some r)
    × Ends 8 (λ i. 0) true (type_line 8 keys []) r
    × AllPrintable (type_line 8 keys []).1
read_line_example = read_line-Ends (λ i. 0) 8 true keys (omega arith)
