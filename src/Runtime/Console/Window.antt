-- ===== src/Runtime/Console/Window.antt =====
-- The history of a console is the end of the log of all its lines.
use renom.Prelude.{
  Bool-cases, List, Units, [], ap, arith, drop, if◌then◌else◌, inl, inr, length, length-append,
  length-drop, ltb, max, min, refl, suc, sym, take, zero, ℕ, ◌++◌, ◌+◌, ◌-◌, ◌∙◌, ◌∷◌, ◌≡◌, ◌≤◌,
}
use renom.Runtime.Console.{
  ConsoleLine, Scrollback, Stream, console_line, emit, emit_each, emit_text, history_limit,
  history_of, line_max, trimmed, window,
}

module _ {ℓ} {A : Type ℓ} where
  drop-append_short : (n : ℕ) (xs ys : List A) → n ≤ length xs → drop n (xs ++ ys) ≡ drop n xs ++ ys
  drop-append_short zero xs ys h = refl
  drop-append_short (suc n) [] ys h = absurd (omega arith)
  drop-append_short (suc n) (x ∷ xs) ys h = drop-append_short n xs ys (omega arith)

  drop-nil : (n : ℕ) → drop {A = A} n [] ≡ []
  drop-nil zero = refl
  drop-nil (suc n) = refl

  drop-drop : (m n : ℕ) (xs : List A) → drop m (drop n xs) ≡ drop (n + m) xs
  drop-drop m zero xs = ap (λ k. drop k xs) (omega arith)
  drop-drop m (suc n) [] = drop-nil m ∙ sym (drop-nil (suc n + m))
  drop-drop m (suc n) (x ∷ xs) =
      let sum : suc (n + m) ≡ suc n + m = omega arith in
      drop-drop m n xs ∙ ap (λ k. drop k (x ∷ xs)) sum

  -- The end of an end.
  pub window-window : (m n : ℕ) (xs : List A) → m ≤ n → window m (window n xs) ≡ window m xs
  unfolding window
  window-window m n xs h =
      drop-drop (length (drop (length xs - n) xs) - m) (length xs - n) xs
      ∙ ap (λ k. drop k xs) (omega (arith, length-drop (length xs - n) xs))

  window-append :
      (n : ℕ) (xs : List A) (x : A)
      → window (suc n) (window (suc n) xs ++ x ∷ []) ≡ window (suc n) (xs ++ x ∷ [])
  unfolding window
  window-append n xs x =
      let d = length xs - suc n in
      let shorter : drop d xs ++ x ∷ [] ≡ drop d (xs ++ x ∷ []) =
        sym (drop-append_short d xs (x ∷ []) (omega arith)) in
      ap (λ l. drop (length (drop d xs ++ x ∷ []) - suc n) l) shorter
      ∙ drop-drop (length (drop d xs ++ x ∷ []) - suc n) d (xs ++ x ∷ [])
      ∙ ap (λ k. drop k (xs ++ x ∷ []))
          (omega (
            arith,
            length-append (drop d xs) (x ∷ []),
            length-append xs (x ∷ []),
            length-drop d xs,
          ))

-- The log of a console holds all its lines, the history is its end, and the last number is the number
-- of lines ever emitted.
abbrev pub Refines : Scrollback → List ConsoleLine → Type 0
Refines c log = (c.history ≡ window history_limit log) × (c.seq ≡ length log)

trimmed-window : (l : List ConsoleLine) → trimmed l ≡ window history_limit l
unfolding trimmed window
trimmed-window l = elim (Bool-cases (ltb history_limit (length l))) [
  | inl e ↦ rw (e, trimmed) refl
  | inr e ↦
      let none_dropped : length l - history_limit ≡ 0 = ground (arith, e) in
      rw (e, trimmed) (rw none_dropped refl)
]

-- The line that a console emits next, when its log is given.
abbrev pub next_line : ℕ → Stream → Units → List ConsoleLine → ConsoleLine
next_line ts stream text log = record {
  seq = length log + 1;
  ts = ts;
  stream = stream;
  text = take line_max text;
}

emit-Refines :
    (ts : ℕ) (stream : Stream) (text : Units) (c : Scrollback) (log : List ConsoleLine)
    → Refines c log
    → Refines (emit ts stream text c) (log ++ next_line ts stream text log ∷ [])
unfolding emit
emit-Refines ts stream text c log (kept, counted) =
    let line = next_line ts stream text log in
    let same : console_line ts stream text c ≡ line = ground (arith, counted) in
    (
      trimmed-window (c.history ++ console_line ts stream text c ∷ [])
          ∙ ap (λ (x : ConsoleLine). window history_limit (c.history ++ x ∷ [])) same
          ∙ ap (λ l. window history_limit (l ++ line ∷ [])) kept
          ∙ window-append 499 log line,
      omega (arith, counted, length-append log (line ∷ [])),
    )

abbrev pub log_text : ℕ → Stream → Units → List ConsoleLine → List ConsoleLine
log_text ts stream text log =
    if ltb 0 (length text) then log ++ next_line ts stream text log ∷ [] else log

emit_text-Refines :
    (ts : ℕ) (stream : Stream) (text : Units) (c : Scrollback) (log : List ConsoleLine)
    → Refines c log
    → Refines (emit_text ts stream text c) (log_text ts stream text log)
unfolding emit_text
emit_text-Refines ts stream text c log h = elim (Bool-cases (ltb 0 (length text))) [
  | inl e ↦ rw e (emit-Refines ts stream text c log h)
  | inr e ↦ rw e h
]

-- The specification of a console: a log that grows by each text that is not empty.
unfoldable pub logged : ℕ → Stream → List Units → List ConsoleLine → List ConsoleLine
logged ts stream [] log = log
logged ts stream (text ∷ texts) log = logged ts stream texts (log_text ts stream text log)

-- A console refines a log of everything: after any texts are emitted its history is the end of the
-- log that they make, at most 500 lines, and its number is the length of that log.
pub emit_each-Refines :
    (ts : ℕ) (stream : Stream) (texts : List Units) (c : Scrollback) (log : List ConsoleLine)
    → Refines c log
    → Refines (emit_each ts stream texts c) (logged ts stream texts log)
unfolding emit_each logged
emit_each-Refines ts stream [] c log h = h
emit_each-Refines ts stream (text ∷ texts) c log h =
    emit_each-Refines ts stream texts (emit_text ts stream text c) (log_text ts stream text log)
      (emit_text-Refines ts stream text c log h)

-- What a reader of the console is given is the end of that log, between one line and 500 of them.
pub history_of-window :
    (limit : ℕ) (c : Scrollback) (log : List ConsoleLine)
    → Refines c log
    → history_of limit c ≡ window (min (max limit 1) history_limit) log
unfolding history_of
history_of-window limit c log (kept, _) =
    ap (window (min (max limit 1) history_limit)) kept
    ∙ window-window (min (max limit 1) history_limit) history_limit log (omega arith)
