-- ===== src/Schedules/Cron/Fields.antt =====
-- What a parsed field holds.
use renom.Prelude.{
  All, List, Option, Units, [], arith, inl, inr, length, ltb, none, not, refl, some, some-injective,
  subst, sym, true, units_eq, ℕ, ◌+◌, ◌-◌, ◌<◌, ◌||◌, ◌↔◌, ◌∙◌, ◌∷◌, ◌≡◌, ◌≤◌, ◌⊎◌,
}
use renom.JsText.{trim}
use renom.JsText.Split.{split, split_spaces}
use renom.Schedules.Cron.{
  Chunk, guard, >>=-eq-some, includes, sort, add_range, parse_step, parse_range, step_given,
  slash_parts, parse_chunk, parse_chunks, parse_field, parse_parts, parse_cron, CronFields, star,
}
use renom.Schedules.Cron.Sets.{
  IsIncreasing, HasNoRepeats, add_range-HasNoRepeats, IsStep, includes-add_range_iff, includes-sort,
  sort-IsIncreasing, length-sort,
}

parse_step-pos : (part : Option Units) (step : ℕ) → parse_step part ≡ some step → 1 ≤ step
unfolding parse_step
parse_step-pos none step h = ground arith
parse_step-pos (some part) step h = ground arith

-- The bounds that an accepted entry of a field between `low` and `high` keeps.
pub record Fits (low high : ℕ) (c : Chunk) : Type 0 where
  pub from_low : low ≤ c.lo
  pub ordered : c.lo ≤ c.hi
  pub to_high : c.hi ≤ high
  pub steps : 1 ≤ c.step

Fits-of_guard :
    (low high lo hi step : ℕ)
    → guard (not (ltb lo low || ltb high hi || ltb hi lo)) ≡ some tt
    → 1 ≤ step
    → Fits low high (record { lo = lo; hi = hi; step = step })
Fits-of_guard low high lo hi step h p = ground arith

parse_chunk-Fits :
    (low high : ℕ) (s : Units) (c : Chunk) → parse_chunk low high s ≡ some c → Fits low high c
unfolding parse_chunk
parse_chunk-Fits low high [] c h = cc
parse_chunk-Fits low high (u ∷ s) c h =
    let (parts, _, h1) = >>=-eq-some (slash_parts (split b'/' (u ∷ s))) _ h in
    let (step, stepped, h2) = >>=-eq-some (parse_step parts.1) _ h1 in
    let (range, _, h3) = >>=-eq-some (parse_range low high parts.0 (step_given parts.1)) _ h2 in
    let (_, fits, made) = >>=-eq-some (guard _) _ h3 in
    let same : record { lo = range.0; hi = range.1; step = step } ≡ c = some-injective _ _ made in
    subst (Fits low high) same
      (Fits-of_guard low high range.0 range.1 step fits (parse_step-pos parts.1 step stepped))

-- Some entry of the list stands for `x`: it is accepted, and `x` is its first number and some steps,
-- up to its last.
abbrev pub Covered : ℕ → ℕ → List Units → ℕ → Type 0
Covered low high [] x = ⊥
Covered low high (s ∷ ss) x =
    ((c : Chunk) × (parse_chunk low high s ≡ some c) × IsStep c.lo c.hi c.step x)
    ⊎ Covered low high ss x

-- What the loop over the entries has collected.
record Collected (low high : ℕ) (ss : List Units) (out vs : List ℕ) : Type 0 where
  members : (x : ℕ) → (includes vs x ≡ true) ↔ ((includes out x ≡ true) ⊎ Covered low high ss x)
  unique : HasNoRepeats vs

members_next :
    (low high : ℕ) (s : Units) (ss : List Units) (out : List ℕ) (x : ℕ) (c : Chunk)
    → parse_chunk low high s ≡ some c
    → (((includes (add_range (c.hi + 1 - c.lo) c.lo c.hi c.step out) x) ≡ true)
        ⊎ Covered low high ss x)
      ↔ ((includes out x ≡ true) ⊎ Covered low high (s ∷ ss) x)
members_next low high s ss out x c parsed = (to, from)
  where
    fits : Fits low high c
    fits = parse_chunk-Fits low high s c parsed

    range :
        (includes (add_range (c.hi + 1 - c.lo) c.lo c.hi c.step out) x ≡ true)
        ↔ ((includes out x ≡ true) ⊎ IsStep c.lo c.hi c.step x)
    range = includes-add_range_iff (c.hi + 1 - c.lo) c.lo c.hi c.step out x fits.steps (omega arith)

    to :
        ((includes (add_range (c.hi + 1 - c.lo) c.lo c.hi c.step out) x) ≡ true)
          ⊎ Covered low high ss x
        → (includes out x ≡ true) ⊎ Covered low high (s ∷ ss) x
    to (inl i) = elim (range.0 i) [ inl o ↦ inl o | inr st ↦ inr (inl (c, parsed, st)) ]
    to (inr cov) = inr (inr cov)

    from :
        (includes out x ≡ true) ⊎ Covered low high (s ∷ ss) x
        → ((includes (add_range (c.hi + 1 - c.lo) c.lo c.hi c.step out) x) ≡ true)
          ⊎ Covered low high ss x
    from (inl o) = inl (range.1 (inl o))
    from (inr (inl (d, parsed', st))) =
        let same : d ≡ c = some-injective _ _ (sym parsed' ∙ parsed) in
        inl (range.1 (inr (subst (λ (e : Chunk). IsStep e.lo e.hi e.step x) same st)))
    from (inr (inr cov)) = inr cov

parse_chunks-Collected :
    (low high : ℕ) (ss : List Units) (out vs : List ℕ)
    → HasNoRepeats out
    → parse_chunks low high ss out ≡ some vs
    → Collected low high ss out vs
unfolding parse_chunks
parse_chunks-Collected low high [] out vs u h =
    let same : out ≡ vs = some-injective _ _ h in
    record {
      members = λ x. rw same (inl, λ d. elim d [ inl i ↦ i | inr z ↦ absurd z ]);
      unique = rw (← same) u;
    }
parse_chunks-Collected low high (s ∷ ss) out vs u h =
    let (c, parsed, h') = >>=-eq-some (parse_chunk low high s) _ h in
    let fits = parse_chunk-Fits low high s c parsed in
    let added = add_range (c.hi + 1 - c.lo) c.lo c.hi c.step out in
    let ih =
      parse_chunks-Collected low high ss added vs
        (add_range-HasNoRepeats (c.hi + 1 - c.lo) c.lo c.hi c.step out u) h' in
    record {
      members = λ x.
          let next = members_next low high s ss out x c parsed in
          (λ i. next.0 ((ih.members x).0 i), λ d. (ih.members x).1 (next.1 d));
      unique = ih.unique;
    }

Covered-Within :
    (low high : ℕ) (ss : List Units) (x : ℕ) → Covered low high ss x → (low ≤ x) × (x ≤ high)
Covered-Within low high (s ∷ ss) x (inl (c, parsed, (k, e, le))) =
    let fits = parse_chunk-Fits low high s c parsed in
    (omega (arith, fits.from_low), omega (arith, fits.to_high))
Covered-Within low high (s ∷ ss) x (inr cov) = Covered-Within low high ss x cov
Covered-Within low high [] x z = absurd z

-- Every number of a list that it includes.
All-of_includes : (P : ℕ → Type 0) (xs : List ℕ) → ((x : ℕ) → includes xs x ≡ true → P x) → All P xs
unfolding includes
All-of_includes P [] h = tt
All-of_includes P (x ∷ xs) h =
    (h x (ground arith), All-of_includes P xs (λ y i. h y (ground (arith, i))))

sorted_members :
    (low high : ℕ) (ss : List Units) (out : List ℕ)
    → Collected low high ss [] out
    → (x : ℕ) → (includes (sort out) x ≡ true) ↔ Covered low high ss x
unfolding includes
sorted_members low high ss out c x = (
  λ i. elim ((c.members x).0 (sym (includes-sort out x) ∙ i)) [ inl z ↦ cc | inr cov ↦ cov ],
  λ cov. includes-sort out x ∙ (c.members x).1 (inr cov),
)

-- What `parseField` returns: a list in increasing order, not empty, with no number outside the
-- bounds, that holds a number exactly if some entry between the commas stands for it.
pub record IsField (low high : ℕ) (entries : List Units) (vs : List ℕ) : Type 0 where
  pub increasing : IsIncreasing vs
  pub some_member : 0 < length vs
  pub within : All (λ v. (low ≤ v) × (v ≤ high)) vs
  pub members : (x : ℕ) → (includes vs x ≡ true) ↔ Covered low high entries x

-- An accepted field is the increasing list of the numbers that its entries stand for, all between
-- the bounds, and at least one.
pub parse_field-IsField :
    (low high : ℕ) (raw : Units) (vs : List ℕ)
    → parse_field low high raw ≡ some vs
    → IsField low high (split b',' raw) vs
unfolding parse_field
parse_field-IsField low high [] vs h = cc
parse_field-IsField low high (u ∷ s) vs h =
    let (out, collected, h1) = >>=-eq-some (parse_chunks low high (split b',' (u ∷ s)) []) _ h in
    let (_, nonempty, sorted) = >>=-eq-some (guard (ltb 0 (length out))) _ h1 in
    let same : sort out ≡ vs = some-injective _ _ sorted in
    let all_of = parse_chunks-Collected low high (split b',' (u ∷ s)) [] out tt collected in
    let is_member = sorted_members low high (split b',' (u ∷ s)) out all_of in
    subst (IsField low high (split b',' (u ∷ s))) same (record {
      increasing = sort-IsIncreasing out all_of.unique;
      some_member = ground (arith, length-sort out);
      within =
          All-of_includes _ (sort out)
            (λ x i. Covered-Within low high (split b',' (u ∷ s)) x ((is_member x).0 i));
      members = is_member;
    })

-- What an accepted expression means: its five words are five fields, and the flags say which of the
-- day fields is a lone star.
pub record IsCron (expr : Units) (f : CronFields) : Type 0 where
  pub minute : Units
  pub hour : Units
  pub dom : Units
  pub month : Units
  pub dow : Units
  pub words : split_spaces (trim expr) ≡ minute ∷ hour ∷ dom ∷ month ∷ dow ∷ []
  pub minutes : IsField 0 59 (split b',' minute) f.minute
  pub hours : IsField 0 23 (split b',' hour) f.hour
  pub doms : IsField 1 31 (split b',' dom) f.dom
  pub months : IsField 1 12 (split b',' month) f.month
  pub dows : IsField 0 6 (split b',' dow) f.dow
  pub dom_star : f.dom_is_star ≡ units_eq (trim dom) star
  pub dow_star : f.dow_is_star ≡ units_eq (trim dow) star

parse_parts-IsCron :
    (expr : Units) (words : List Units) (f : CronFields)
    → split_spaces (trim expr) ≡ words
    → parse_parts words ≡ some f
    → IsCron expr f
unfolding parse_parts
parse_parts-IsCron expr (minute ∷ hour ∷ dom ∷ month ∷ dow ∷ []) f w h =
    let (ms, pm, h1) = >>=-eq-some (parse_field 0 59 minute) _ h in
    let (hs, ph, h2) = >>=-eq-some (parse_field 0 23 hour) _ h1 in
    let (ds, pd, h3) = >>=-eq-some (parse_field 1 31 dom) _ h2 in
    let (os, po, h4) = >>=-eq-some (parse_field 1 12 month) _ h3 in
    let (ws, pw, made) = >>=-eq-some (parse_field 0 6 dow) _ h4 in
    let fields : CronFields = record {
      minute = ms;
      hour = hs;
      dom = ds;
      month = os;
      dow = ws;
      dom_is_star = units_eq (trim dom) star;
      dow_is_star = units_eq (trim dow) star;
    } in
    let same : fields ≡ f = some-injective _ _ made in
    subst (IsCron expr) same (record {
      minute = minute;
      hour = hour;
      dom = dom;
      month = month;
      dow = dow;
      words = w;
      minutes = parse_field-IsField 0 59 minute ms pm;
      hours = parse_field-IsField 0 23 hour hs ph;
      doms = parse_field-IsField 1 31 dom ds pd;
      months = parse_field-IsField 1 12 month os po;
      dows = parse_field-IsField 0 6 dow ws pw;
      dom_star = refl;
      dow_star = refl;
    })
parse_parts-IsCron expr ws f w h = cc

-- An accepted expression has exactly five words, each field is the increasing list of the numbers
-- that its word stands for within the field's bounds, and the flags say which day field is a star.
pub parse_cron-IsCron : (expr : Units) (f : CronFields) → parse_cron expr ≡ some f → IsCron expr f
unfolding parse_cron
parse_cron-IsCron expr f h = parse_parts-IsCron expr (split_spaces (trim expr)) f refl h
