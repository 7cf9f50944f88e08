-- ===== src/Files/Properties/Save.antt =====
-- A save and what is read after it.
use renom.Prelude.{
  All, Bool-cases, List, Option, Option-cases, Units, [], ap, ap₂, arith, false, if◌then◌else◌, inl,
  inr, none, refl, some, subst, sym, units_eq, units_eq_iff, units_eq_inst, ◌∙◌, ◌∷◌, ◌≡◌, ◌≢◌,
}
use renom.JsMap
use renom.JsText.Split.{split_lines_at, split_lines, join}
use renom.Files.Properties.{
  ParsedProperty, match_key, match_setting, parse_lines, parse_properties, setting_line, Changes,
  apply_line, new_lines, apply_lines, apply_property_changes,
}
use renom.Files.Properties.Lines.{
  IsLine, split_lines-join, IsKeyText, IsValueText, match_setting-setting_line, match_setting-key,
  written-IsLine,
}

-- The value of the first setting of a key, as the Properties tab shows it.
unfoldable pub value_of : List ParsedProperty → Units → Option Units
value_of [] k = none
value_of (p ∷ ps) k = if units_eq p.key k then some p.value else value_of ps k

-- Every change can be written.
abbrev pub AreWritable : Changes → Type 0
AreWritable = All (λ c. IsKeyText c.0 × IsValueText c.1)

writable_get :
    (cs : Changes) (k v : Units) → AreWritable cs → JsMap.get cs k ≡ some v → IsValueText v
unfolding JsMap.get
writable_get [] k v h g = cc
writable_get ((j, w) ∷ cs) k v ((_, w_ok), h) g = elim (Bool-cases (units_eq j k)) [
  | inl e ↦ let same : w ≡ v = ground (arith, e) in subst IsValueText same w_ok
  | inr e ↦ writable_get cs k v h (ground (arith, e))
]

writable_key : (cs : Changes) (k v : Units) → AreWritable cs → JsMap.get cs k ≡ some v → IsKeyText k
unfolding JsMap.get
writable_key [] k v h g = cc
writable_key ((j, w) ∷ cs) k v ((j_ok, _), h) g = elim (Bool-cases (units_eq j k)) [
  | inl e ↦ subst IsKeyText ((units_eq_iff j k).0 e) j_ok
  | inr e ↦ writable_key cs k v h (ground (arith, e))
]

writable_delete : (cs : Changes) (k : Units) → AreWritable cs → AreWritable (JsMap.delete cs k)
unfolding JsMap.delete
writable_delete [] k h = tt
writable_delete ((j, w) ∷ cs) k (c, h) = elim (Bool-cases (units_eq j k)) [
  | inl e ↦ rw (e, JsMap.delete) h
  | inr e ↦ rw (e, JsMap.delete) (c, writable_delete cs k h)
]

value_of-new_lines :
    (cs : Changes) (k : Units)
    → AreWritable cs
    → value_of (parse_lines (new_lines cs)) k ≡ JsMap.get cs k
unfolding value_of parse_lines new_lines JsMap.get
value_of-new_lines [] k h = refl
value_of-new_lines ((j, v) ∷ cs) k ((key, value), h) =
    rw (match_setting-setting_line j v key value, parse_lines)
      (ground (arith, value_of-new_lines cs k h))

-- The first of two that is there.
abbrev pub or_else : Option Units → Option Units → Option Units
or_else none o = o
or_else (some v) o = some v

-- The lines that are appended to a text of none.
no_lines-value :
    (cs : Changes) (k : Units)
    → AreWritable cs
    → value_of (parse_lines (apply_lines [] cs)) k
      ≡ or_else (JsMap.get cs k) (value_of (parse_lines []) k)
unfolding apply_lines value_of parse_lines
no_lines-value cs k h = elim (Option-cases (JsMap.get cs k)) [
  | inl lacks ↦ rw lacks (value_of-new_lines cs k h ∙ lacks)
  | inr (v, has) ↦ rw has (value_of-new_lines cs k h ∙ has)
]

-- One line that is left alone.
value_of_kept :
    (line : Units) (out rest : List Units) (cs : Changes) (k : Units)
    → ((u : Units) → match_key line ≡ some (k, u) → JsMap.get cs k ≡ none)
    → value_of (parse_lines out) k ≡ or_else (JsMap.get cs k) (value_of (parse_lines rest) k)
    → value_of (parse_lines (line ∷ out)) k
      ≡ or_else (JsMap.get cs k) (value_of (parse_lines (line ∷ rest)) k)
unfolding parse_lines value_of
value_of_kept line out rest cs k free ih = elim (Option-cases (match_setting line)) [
  | inl unmatched ↦ rw (unmatched, parse_lines) ih
  | inr ((j, v), found) ↦
      rw (found, parse_lines)
        (elim (Bool-cases (units_eq j k)) [
          | inl same ↦
              let (u, at) = match_setting-key line j v found in
              let unchanged = free u (at ∙ ap (λ x. some (x, u)) ((units_eq_iff j k).0 same)) in
              rw (same, unchanged)
          | inr other ↦ rw other ih
        ])
]

-- A line of another key says nothing of `k`.
value_of_other :
    (line : Units) (rest : List Units) (j u k : Units)
    → match_key line ≡ some (j, u)
    → units_eq j k ≡ false
    → value_of (parse_lines (line ∷ rest)) k ≡ value_of (parse_lines rest) k
unfolding parse_lines value_of
value_of_other line rest j u k at other = elim (Option-cases (match_setting line)) [
  | inl unmatched ↦ rw (unmatched, parse_lines) refl
  | inr ((i, v), found) ↦
      let (w, at') = match_setting-key line i v found in
      let same : i ≡ j = cc (at, at') in rw (found, parse_lines) (rw same (rw other refl))
]

-- One line that is replaced.
value_of_replaced :
    (line : Units) (out rest : List Units) (cs : Changes) (j u v k : Units)
    → match_key line ≡ some (j, u)
    → JsMap.get cs j ≡ some v
    → IsKeyText j
    → IsValueText v
    → value_of (parse_lines out) k
      ≡ or_else (JsMap.get (JsMap.delete cs j) k) (value_of (parse_lines rest) k)
    → value_of (parse_lines (setting_line j v ∷ out)) k
      ≡ or_else (JsMap.get cs k) (value_of (parse_lines (line ∷ rest)) k)
unfolding parse_lines value_of
value_of_replaced line out rest cs j u v k at has key value ih =
    rw (match_setting-setting_line j v key value, parse_lines)
      (elim (Bool-cases (units_eq j k)) [
        | inl same ↦
            let found : JsMap.get cs k ≡ some v =
              ap (JsMap.get cs) (sym ((units_eq_iff j k).0 same)) ∙ has in
            rw (same, found)
        | inr other ↦
            let ne : j ≢ k = λ e. cc (other, (units_eq_iff j k).1 e) in
            let line_silent = value_of_other line rest j u k at other in
            rw other (ih ∙ ap₂ or_else (JsMap.get-delete_ne cs j k ne) (sym line_silent))
      ])

apply_lines-value :
    (lines : List Units) (cs : Changes) (k : Units)
    → AreWritable cs
    → value_of (parse_lines (apply_lines lines cs)) k
      ≡ or_else (JsMap.get cs k) (value_of (parse_lines lines) k)
unfolding apply_lines apply_line
apply_lines-value [] cs k h = no_lines-value cs k h
apply_lines-value (line ∷ lines) cs k h = elim (Option-cases (match_key line)) [
  | inl unmatched ↦
      rw (unmatched, apply_lines, apply_line)
        (value_of_kept line (apply_lines lines cs) lines cs k (λ u e. cc)
          (apply_lines-value lines cs k h))
  | inr ((j, u), at) ↦
      rw (at, apply_lines, apply_line)
        (elim (Option-cases (JsMap.get cs j)) [
          | inl lacks ↦ rw lacks (
              value_of_kept line (apply_lines lines cs) lines cs k
                (λ w e. let same : j ≡ k = cc in ap (JsMap.get cs) (sym same) ∙ lacks)
                (apply_lines-value lines cs k h))
          | inr (v, has) ↦ rw has (
              value_of_replaced line (apply_lines lines (JsMap.delete cs j)) lines cs j u v k at has
                (writable_key cs j v h has) (writable_get cs j v h has)
                (apply_lines-value lines (JsMap.delete cs j) k (writable_delete cs j h)))
        ])
]

-- The lines of the result.
apply_lines-IsLine :
    (lines : List Units) (cs : Changes)
    → AreWritable cs
    → All IsLine lines
    → All IsLine (apply_lines lines cs)
unfolding apply_lines apply_line new_lines
apply_lines-IsLine [] [] h l = tt
apply_lines-IsLine [] ((k, v) ∷ cs) (c, h) l =
    (written-IsLine k v c.0 c.1, apply_lines-IsLine [] cs h l)
apply_lines-IsLine (line ∷ lines) cs h (p, l) = elim (Option-cases (match_key line)) [
  | inl unmatched ↦ rw (unmatched, apply_lines, apply_line) (p, apply_lines-IsLine lines cs h l)
  | inr ((j, u), at) ↦
      rw (at, apply_lines, apply_line)
        (elim (Option-cases (JsMap.get cs j)) [
          | inl lacks ↦ rw lacks (p, apply_lines-IsLine lines cs h l)
          | inr (v, has) ↦ rw has (
            written-IsLine j v (writable_key cs j v h has) (writable_get cs j v h has),
            apply_lines-IsLine lines (JsMap.delete cs j) (writable_delete cs j h) l,
          )
        ])
]

-- A text with lines has lines after a save, which stand in it as they are.
split_lines-join-apply_lines :
    (p : Units) (ps : List Units) (cs : Changes)
    → AreWritable cs
    → All IsLine (p ∷ ps)
    → split_lines (join 10 (apply_lines (p ∷ ps) cs)) ≡ apply_lines (p ∷ ps) cs
unfolding apply_lines
split_lines-join-apply_lines p ps cs h l =
    let (out, cs') = apply_line p cs in
    split_lines-join out (apply_lines ps cs') (apply_lines-IsLine (p ∷ ps) cs h l)

split_lines-apply_property_changes :
    (text : Units) (cs : Changes)
    → AreWritable cs
    → All IsLine (split_lines text)
    → split_lines (join 10 (apply_lines (split_lines text) cs)) ≡ apply_lines (split_lines text) cs
unfolding split_lines
split_lines-apply_property_changes text cs h l =
    split_lines-join-apply_lines (split_lines_at text).0 (split_lines_at text).1 cs h l

-- Saving changes and reading the file again: if every change has a key that can be written and a value
-- of one line with no white space in front, and each carriage return of the text stands before a line
-- feed, then a changed key has its new value, whether the file had the key or not, and any other key
-- has the value that it had.
pub parse-apply_property_changes :
    (text : Units) (changes : Changes) (k : Units)
    → AreWritable changes
    → All IsLine (split_lines text)
    → value_of (parse_properties (apply_property_changes text changes)) k
      ≡ or_else (JsMap.get changes k) (value_of (parse_properties text) k)
unfolding parse_properties apply_property_changes
parse-apply_property_changes text changes k writable plain =
    ap (λ l. value_of (parse_lines l) k)
      (split_lines-apply_property_changes text changes writable plain)
    ∙ apply_lines-value (split_lines text) changes k writable
