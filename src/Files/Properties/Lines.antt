-- ===== src/Files/Properties/Lines.antt =====
-- Lines that are joined and split again, and settings that are written and read again.
use renom.Prelude.{
  All, List, Option-cases, Units, [], any, ap, arith, false, inl, inr, none, refl, some, true, ℕ,
  ◌++◌, ◌∷◌, ◌≡◌, ◌≢◌,
}
use renom.JsText.{is_space, trim_start}
use renom.JsText.Split.{pieces, split_lines_at, split_lines, ends_line, join}
use renom.Files.Properties.{
  is_key_unit, is_line_terminator, span_key, after_equals, match_key, match_setting, setting_line,
}

-- No line feed and no carriage return.
abbrev pub IsLine : Units → Type 0
IsLine = All (λ c. (c ≢ 10) × (c ≢ 13))

not_end : (c : ℕ) (s : Units) → c ≢ 13 → ends_line c s ≡ false
not_end c [] h = refl
not_end c (d ∷ s) h = ground arith

split_lines_at-append :
    (p s : Units) → IsLine p → split_lines_at (p ++ 10 ∷ s) ≡ (p, pieces (split_lines_at s))
unfolding split_lines_at
split_lines_at-append [] s h = refl
split_lines_at-append (c ∷ p) s ((n, r), h) =
    let rest = split_lines_at-append p s h in
    rw (rest, split_lines_at) (ground (arith, not_end c (p ++ 10 ∷ s) r))

split_lines_at_piece : (p : Units) → IsLine p → split_lines_at p ≡ (p, [])
unfolding split_lines_at
split_lines_at_piece [] h = refl
split_lines_at_piece (c ∷ p) ((n, r), h) =
    rw (split_lines_at_piece p h, split_lines_at) (ground (arith, not_end c p r))

-- Lines that are joined by line feeds are split again into themselves.
pub split_lines-join :
    (p : Units) (ps : List Units) → All IsLine (p ∷ ps) → split_lines (join 10 (p ∷ ps)) ≡ p ∷ ps
unfolding split_lines join
split_lines-join p [] (h, hs) = rw (split_lines_at_piece p h)
split_lines-join p (q ∷ ps) (h, hs) =
    rw (split_lines_at-append p (join 10 (q ∷ ps)) h) (ap (λ l. p ∷ l) (split_lines-join q ps hs))

-- A key that can be written: key units, at least one.
abbrev pub IsKeyText : Units → Type 0
IsKeyText k = (k ≢ []) × All (λ c. is_key_unit c ≡ true) k

-- A value that can be written: one line, with no white space in front.
abbrev pub IsValueText : Units → Type 0
IsValueText v = (any is_line_terminator v ≡ false) × (trim_start v ≡ v)

key_unit_plain : (c : ℕ) → is_key_unit c ≡ true → (is_space c ≡ false) × (c ≢ 10) × (c ≢ 13)
unfolding is_key_unit is_space
key_unit_plain c h = ground arith

equals_plain : (is_key_unit b'=' ≡ false) × (is_space b'=' ≡ false)
unfolding is_key_unit is_space
equals_plain = (refl, refl)

span_key-append :
    (k v : Units) → All (λ c. is_key_unit c ≡ true) k → span_key (k ++ b'=' ∷ v) ≡ (k, b'=' ∷ v)
unfolding span_key
span_key-append [] v h = ground (arith, equals_plain)
span_key-append (c ∷ k) v (p, h) = rw (span_key-append k v h, span_key) (ground arith)

trim_start_plain : (c : ℕ) (s : Units) → is_space c ≡ false → trim_start (c ∷ s) ≡ c ∷ s
unfolding trim_start
trim_start_plain c s h = rw h

-- The key of a written setting is matched again.
pub match_key-setting_line :
    (k v : Units) → IsKeyText k → match_key (setting_line k v) ≡ some (k, v)
unfolding match_key after_equals
match_key-setting_line [] v (n, h) = absurd (n refl)
match_key-setting_line (c ∷ k) v (n, (p, h)) =
    rw (trim_start_plain c (k ++ b'=' ∷ v) (key_unit_plain c p).0, span_key-append (c ∷ k) v (p, h))

-- So is a value.
pub match_setting-setting_line :
    (k v : Units) → IsKeyText k → IsValueText v → match_setting (setting_line k v) ≡ some (k, v)
unfolding match_setting
match_setting-setting_line k v key (one, plain) =
    rw (match_key-setting_line k v key, match_setting) (rw plain (rw one))

-- A setting is matched at the key that `match_key` finds.
pub match_setting-key :
    (line k v : Units)
    → match_setting line ≡ some (k, v)
    → (rest : Units) × (match_key line ≡ some (k, rest))
unfolding match_setting
match_setting-key line k v h = elim (Option-cases (match_key line)) [
  | inl none_found ↦ ground (arith, none_found)
  | inr (found, e) ↦ (found.1, ground (arith, e))
]

-- A value with a unit that ends a line in JavaScript, behind a unit that is no white space, makes its
-- line no setting.
pub match_setting-terminator :
    (k v : Units)
    → IsKeyText k
    → trim_start v ≡ v
    → any is_line_terminator v ≡ true
    → match_setting (setting_line k v) ≡ none
unfolding match_setting
match_setting-terminator k v key plain ends =
    rw (match_key-setting_line k v key, match_setting) (rw plain (rw ends))

setting_line-IsLine :
    (k v : Units) → All (λ c. is_key_unit c ≡ true) k → IsLine v → IsLine (setting_line k v)
setting_line-IsLine [] v h l = ((omega arith, omega arith), l)
setting_line-IsLine (c ∷ k) v (p, h) l =
    (((key_unit_plain c p).1, (key_unit_plain c p).2), setting_line-IsLine k v h l)

value-IsLine : (v : Units) → any is_line_terminator v ≡ false → IsLine v
unfolding is_line_terminator
value-IsLine [] h = tt
value-IsLine (c ∷ v) h = (ground arith, value-IsLine v (ground arith))

-- A written setting is one line.
pub written-IsLine : (k v : Units) → IsKeyText k → IsValueText v → IsLine (setting_line k v)
written-IsLine k v key value = setting_line-IsLine k v key.1 (value-IsLine v value.0)
