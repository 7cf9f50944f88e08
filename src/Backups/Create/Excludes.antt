-- ===== src/Backups/Create/Excludes.antt =====
-- What the patterns that tar is given look like.
use renom.Prelude.{
  Bool, List, Units, [], arith, codes, false, if◌then◌else◌, length, refl, true, ℕ, ◌==◌, ◌||◌, ◌∷◌,
  ◌≡◌,
}
use renom.Backups.Create.{exclude_args, has_parent, is_dot_or_slash, sanitize_exclude, strip_dots}
use renom.JsText.{is_space, trim, trim_end, trim_start}

-- A pattern that names something in the directory: it does not start with a dot or a slash, and
-- never goes up.
abbrev pub IsRelative : Units → Type 0
IsRelative [] = ◌≡◌ {A = ℕ} 0 1
IsRelative (c ∷ s) = (is_dot_or_slash c ≡ false) × (has_parent (c ∷ s) ≡ false)

-- Arguments that come in pairs: the option, and a relative pattern.
abbrev pub AreExcludes : List Units → Type 0
AreExcludes [] = Unit
AreExcludes (option ∷ []) = ◌≡◌ {A = ℕ} 0 1
AreExcludes (option ∷ p ∷ args) = (option ≡ codes "--exclude") × IsRelative p × AreExcludes args

strip_dots-first :
    (s : Units) (c : ℕ) (t : Units) → strip_dots s ≡ c ∷ t → is_dot_or_slash c ≡ false
unfolding strip_dots
strip_dots-first [] c t h = cc
strip_dots-first (d ∷ s) c t h = ground (arith, strip_dots-first s c t)

chosen-IsRelative :
    (test : Bool) (t : Units)
    → (test ≡ false → IsRelative t)
    → IsRelative (if test then codes "__invalid__" else t)
unfolding has_parent
chosen-IsRelative true t h = (refl, refl)
chosen-IsRelative false t h = h refl

relative :
    (t : Units)
    → ((c : ℕ) (s : Units) → t ≡ c ∷ s → is_dot_or_slash c ≡ false)
    → (length t == 0 || has_parent t) ≡ false
    → IsRelative t
relative [] h e = absurd (ground arith)
relative (c ∷ s) h e = (h c s refl, ground arith)

sanitize_exclude-IsRelative : (pattern : Units) → IsRelative (sanitize_exclude pattern)
unfolding sanitize_exclude
sanitize_exclude-IsRelative pattern =
    let t = strip_dots (trim pattern) in
    chosen-IsRelative (length t == 0 || has_parent t) t
      (relative t (strip_dots-first (trim pattern)))

-- Whatever the patterns of a blueprint are, what tar is told to exclude are relative patterns below
-- the directory; so none of them names a hidden file by its leading dot.
pub exclude_args-AreExcludes : (patterns : List Units) → AreExcludes (exclude_args patterns)
unfolding exclude_args
exclude_args-AreExcludes [] = tt
exclude_args-AreExcludes (p ∷ patterns) =
    (refl, sanitize_exclude-IsRelative p, exclude_args-AreExcludes patterns)

strip-trim_end : (s : Units) → strip_dots (trim_end (b'.' ∷ s)) ≡ strip_dots (trim_end s)
unfolding strip_dots trim_end is_space
strip-trim_end s = ground arith

-- The leading dot of a pattern is lost: tar is told to exclude what the pattern without the dot
-- names, so `.env` goes into the archive and `env` does not.
pub sanitize_exclude-dot :
    (s : Units) → trim_start s ≡ s → sanitize_exclude (b'.' ∷ s) ≡ sanitize_exclude s
unfolding sanitize_exclude trim trim_start is_space
sanitize_exclude-dot s h = rw (h, strip-trim_end s) refl
