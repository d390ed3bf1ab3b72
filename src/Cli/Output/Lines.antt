-- ===== src/Cli/Output/Lines.antt =====
-- src/cli/cli_output.c: the loop that prints the headers of a response line by line.
use http_runtime.Base.{
  ℕ, zero, suc, ◌+◌, ◌≤◌, ◌<◌, true, false, Option, none, some, List, [], ◌∷◌, ◌++◌, ◌≡◌, refl, ap,
  sym, ◌∙◌, ◌==◌, if◌then◌else◌, Bool-cases, inl, inr, length, map, Bytes, codes, arith,
}
use http_runtime.Assertion.Header.{until, from}

-- `if (*p == '\n') p++;`
unfoldable pub skip_newline : Bytes → Bytes
skip_newline [] = []
skip_newline (c ∷ cs) = if c == b'\n' then cs else c ∷ cs

abbrev pub and_rest : Bytes → Option Bytes → Option Bytes
and_rest line none = none
and_rest line (some rest) = some (line ++ rest)

abbrev pub print_line : Bytes → Bytes
print_line line = codes "      " ++ line ++ codes "\n"

-- The loop over the lines; `none` is the end of the fuel.
unfoldable pub print_lines : ℕ → Bytes → Option Bytes
unfolding until from skip_newline
print_lines zero text = none
print_lines (suc fuel) [] = some []
print_lines (suc fuel) (c ∷ cs) =
    and_rest (print_line (until b'\n' (c ∷ cs)))
      (print_lines fuel (skip_newline (from b'\n' (c ∷ cs))))

-- The lines of a text, in one pass.
abbrev onto : ℕ → List Bytes → List Bytes
onto c [] = (c ∷ []) ∷ []
onto c (line ∷ rest) = (c ∷ line) ∷ rest

unfoldable pub lines : Bytes → List Bytes
lines [] = []
lines (c ∷ cs) = let rest = lines cs in if c == b'\n' then [] ∷ rest else onto c rest

abbrev pub concat : List Bytes → Bytes
concat [] = []
concat (text ∷ texts) = text ++ concat texts

-- A byte within a line
same_line :
    (c : ℕ) (cs : Bytes)
    → (c == b'\n') ≡ false
    → (lines (c ∷ cs) ≡ onto c (lines cs))
      × (until b'\n' (c ∷ cs) ≡ c ∷ until b'\n' cs)
      × (from b'\n' (c ∷ cs) ≡ from b'\n' cs)
unfolding lines until from
same_line c cs e = (rw e refl, rw e refl, rw e refl)

line_end :
    (c : ℕ) (cs : Bytes)
    → (c == b'\n') ≡ true
    → (lines (c ∷ cs) ≡ [] ∷ lines cs)
      × (until b'\n' (c ∷ cs) ≡ [])
      × (skip_newline (from b'\n' (c ∷ cs)) ≡ cs)
unfolding lines until from skip_newline
line_end c cs e = (rw e refl, rw e refl, rw e (rw e refl))

first_line : Bytes → List Bytes
first_line s = until b'\n' s ∷ lines (skip_newline (from b'\n' s))

-- The last line may lack its newline.
onto-lines :
    (c : ℕ) (cs : Bytes)
    → ((d : ℕ) (ds : Bytes) → cs ≡ d ∷ ds → lines cs ≡ first_line cs)
    → onto c (lines cs) ≡ (c ∷ until b'\n' cs) ∷ lines (skip_newline (from b'\n' cs))
unfolding first_line lines until from skip_newline
onto-lines c [] h = refl
onto-lines c (d ∷ ds) h = ap (onto c) (h d ds refl)

lines_step :
    (c : ℕ) (cs : Bytes)
    → ((d : ℕ) (ds : Bytes) → cs ≡ d ∷ ds → lines cs ≡ first_line cs)
    → lines (c ∷ cs) ≡ first_line (c ∷ cs)
unfolding first_line
lines_step c cs h = elim (Bool-cases (c == b'\n')) [
  | inl e ↦
      let (x, y, z) = line_end c cs e in
      x ∙ ap (λ l. l ∷ lines cs) (sym y) ∙ ap (λ r. until b'\n' (c ∷ cs) ∷ lines r) (sym z)
  | inr e ↦
      let (x, y, z) = same_line c cs e in
      x
      ∙ onto-lines c cs h
      ∙ ap (λ l. l ∷ lines (skip_newline (from b'\n' cs))) (sym y)
      ∙ ap (λ r. until b'\n' (c ∷ cs) ∷ lines (skip_newline r)) (sym z)
]

lines-until : (c : ℕ) (cs : Bytes) → lines (c ∷ cs) ≡ first_line (c ∷ cs)
lines-until c [] = lines_step c [] (λ d ds e. absurd (let f = ap length e in omega (arith, f)))
lines-until c (d ∷ ds) = lines_step c (d ∷ ds) (λ _ _ _. lines-until d ds)

from-shorter : (c : ℕ) (cs : Bytes) → length (skip_newline (from b'\n' (c ∷ cs))) ≤ length cs
unfolding from skip_newline
from-shorter c [] = ground arith
from-shorter c (d ∷ ds) = let l = from-shorter d ds in ground arith

print_lines-fuel :
    (fuel : ℕ) (text : Bytes)
    → length text < fuel
    → print_lines fuel text ≡ some (concat (map print_line (lines text)))
unfolding print_lines lines first_line
print_lines-fuel zero text l = absurd (omega (arith, l))
print_lines-fuel (suc fuel) [] l = refl
print_lines-fuel (suc fuel) (c ∷ cs) l =
    ap (and_rest (print_line (until b'\n' (c ∷ cs)))) (
      print_lines-fuel fuel (skip_newline (from b'\n' (c ∷ cs)))
        (let k = from-shorter c cs in omega (arith, l, k)))
    ∙ ap (λ ls. some (concat (map print_line ls))) (sym (lines-until c cs))

-- The loop that prints headers prints each line of the text, indented and with a newline, in
-- turn; the fuel is never used up.
pub print_lines-lines :
    (text : Bytes)
    → print_lines (length text + 1) text ≡ some (concat (map print_line (lines text)))
print_lines-lines text = print_lines-fuel (length text + 1) text (omega arith)
