-- ===== src/JsText/Split.antt =====
-- `split` at one character, at runs of white space, and at line ends, and `join`.
use renom.Prelude.{
  All, Bool, List, Units, [], arith, codes, false, if◌then◌else◌, refl, true, ℕ, ◌&&◌, ◌++◌, ◌==◌,
  ◌∷◌, ◌≡◌, ◌≢◌,
}
use renom.JsText.{is_space}

-- The first piece and the others: the result of `split` is never empty.
abbrev pub Pieces : Type 0
Pieces = Units × List Units

abbrev pub pieces : Pieces → List Units
pieces (p, ps) = p ∷ ps

abbrev pub push_unit : ℕ → Pieces → Pieces
push_unit c (p, ps) = (c ∷ p, ps)

-- `s.split(sep)` with a separator of one code unit.
unfoldable pub split_at : ℕ → Units → Pieces
split_at sep [] = ([], [])
split_at sep (c ∷ s) =
    let rest = split_at sep s in if c == sep then ([], pieces rest) else push_unit c rest

unfoldable pub split : ℕ → Units → List Units
unfolding split_at
split sep s = pieces (split_at sep s)

-- `s.split(/\s+/)`; the flag says that the unit before was white space.
unfoldable pub split_spaces_from : Bool → Units → Pieces
unfolding is_space
split_spaces_from inside [] = ([], [])
split_spaces_from inside (c ∷ s) =
    let run = split_spaces_from true s in
    let word = split_spaces_from false s in
    if is_space c then (if inside then run else ([], pieces run)) else push_unit c word

unfoldable pub split_spaces : Units → List Units
unfolding split_spaces_from
split_spaces s = pieces (split_spaces_from false s)

abbrev pub carriage_return : ℕ
carriage_return = 13

abbrev pub line_feed : ℕ
line_feed = 10

-- A carriage return belongs to the line end that follows it.
abbrev pub ends_line : ℕ → Units → Bool
ends_line c [] = false
ends_line c (d ∷ s) = c == carriage_return && d == line_feed

-- `s.split(/\r?\n/)`: at a carriage return before a line feed nothing is kept of either.
unfoldable pub split_lines_at : Units → Pieces
split_lines_at [] = ([], [])
split_lines_at (c ∷ s) =
    let rest = split_lines_at s in
    if c == line_feed then ([], pieces rest) else if ends_line c s then rest else push_unit c rest

unfoldable pub split_lines : Units → List Units
unfolding split_lines_at
split_lines s = pieces (split_lines_at s)

-- `lines.join(sep)` with a separator of one code unit.
unfoldable pub join : ℕ → List Units → Units
join sep [] = []
join sep (p ∷ []) = p
join sep (p ∷ q ∷ ps) = p ++ sep ∷ join sep (q ∷ ps)

-- A piece that `split` cuts off holds no separator.
abbrev pub Lacks : ℕ → Units → Type 0
Lacks sep = All (λ c. c ≢ sep)

pub split_at-append :
    (sep : ℕ) (p s : Units)
    → Lacks sep p
    → split_at sep (p ++ sep ∷ s) ≡ (p, pieces (split_at sep s))
unfolding split_at
split_at-append sep [] s h = ground arith
split_at-append sep (c ∷ p) s (n, h) = rw (split_at-append sep p s h, split_at) (ground arith)

pub split_at_piece : (sep : ℕ) (p : Units) → Lacks sep p → split_at sep p ≡ (p, [])
unfolding split_at
split_at_piece sep [] h = refl
split_at_piece sep (c ∷ p) (n, h) = rw (split_at_piece sep p h, split_at) (ground arith)

split_tests :
    (split b',' (codes "1,,2") ≡ codes "1" ∷ [] ∷ codes "2" ∷ [])
    × (split_spaces (codes " a  b ") ≡ [] ∷ codes "a" ∷ codes "b" ∷ [] ∷ [])
    × (split_lines (97 ∷ 13 ∷ 10 ∷ 98 ∷ 13 ∷ 10 ∷ []) ≡ codes "a" ∷ codes "b" ∷ [] ∷ [])
unfolding split split_spaces split_lines
split_tests = (refl, refl, refl)
