-- ===== src/Runtime/Console/Lines.antt =====
-- Where a chunk is cut between two characters, it makes the same lines.
use renom.Prelude.{
  Bool-cases, List, Units, [], ap, append_assoc, ap₂, arith, false, inl, inr, length, length-append,
  ltb, refl, suc, sym, take, true, zero, ℕ, ◌&&◌, ◌++◌, ◌+◌, ◌<◌, ◌==◌, ◌∙◌, ◌∷◌, ◌≡◌, ◌≤◌,
}
use renom.JsText.Split.{Pieces, pieces, push_unit, split_lines_at, ends_line}
use renom.Runtime.Console.{
  Scrollback, Stream, window, ConsoleLine, trimmed, truncation_mark, emit_text, emit, emit_each,
  feed_text, emit_lines, feed, init_from, init_of, last_from, last_of, line_max,
}

abbrev join_pieces : Pieces → Units → List Units
join_pieces p t = init_of p ++ pieces (split_lines_at (last_of p ++ t))

-- A text that does not end a line is its own only piece.
lone_piece : (s : Units) (p : Units) → split_lines_at s ≡ (p, []) → p ≡ s
unfolding split_lines_at
lone_piece [] p h = ground arith
lone_piece (c ∷ []) p h = elim (Bool-cases (c == 10)) [
  | inl e ↦ absurd (ground (arith, e, h))
  | inr e ↦ ground (arith, e, h)
]
lone_piece (c ∷ d ∷ s) p h = elim (Bool-cases (c == 10)) [
  | inl e ↦ absurd (ground (arith, e, h))
  | inr e ↦ elim (Bool-cases (c == 13 && d == 10)) [
    | inl f ↦ absurd (ground (arith, e, f, h))
    | inr f ↦ let (x, xs) = split_lines_at (d ∷ s) in ground (arith, e, f, h, lone_piece (d ∷ s) x)
  ]
]

at_line_feed :
    (c : ℕ) (s : Units)
    → (c == 10) ≡ true
    → split_lines_at (c ∷ s) ≡ ([], pieces (split_lines_at s))
unfolding split_lines_at
at_line_feed c s e = rw e refl

at_carriage_return :
    (c : ℕ) (s : Units)
    → (c == 10) ≡ false
    → ends_line c s ≡ true
    → split_lines_at (c ∷ s) ≡ split_lines_at s
unfolding split_lines_at
at_carriage_return c s e f = rw e (rw f refl)

at_other :
    (c : ℕ) (s : Units)
    → (c == 10) ≡ false
    → ends_line c s ≡ false
    → split_lines_at (c ∷ s) ≡ push_unit c (split_lines_at s)
unfolding split_lines_at
at_other c s e f = rw e (rw f refl)

no_pieces : split_lines_at [] ≡ ([], [])
unfolding split_lines_at
no_pieces = refl

join_break : (x : Pieces) (t : Units) → join_pieces ([], pieces x) t ≡ [] ∷ join_pieces x t
unfolding init_from last_from
join_break x t = refl

join_lone : (p t : Units) → join_pieces (p, []) t ≡ pieces (split_lines_at (p ++ t))
unfolding init_from last_from
join_lone p t = refl

join_more :
    (p q : Units) (qs : List Units) (t : Units)
    → join_pieces (p, q ∷ qs) t ≡ p ∷ join_pieces (q, qs) t
unfolding init_from last_from
join_more p q qs t = refl

pieces-push_unit :
    (c : ℕ) (y : Pieces) (p : Units) (ps : List Units)
    → pieces y ≡ p ∷ ps
    → pieces (push_unit c y) ≡ (c ∷ p) ∷ ps
pieces-push_unit c (y, ys) p ps h = cc

-- One unit in front, which ends no line with what follows.
push-join_pieces :
    (c d : ℕ) (s t : Units) (x : Pieces)
    → split_lines_at (d ∷ s) ≡ x
    → pieces (split_lines_at (d ∷ s ++ t)) ≡ join_pieces x t
    → pieces (push_unit c (split_lines_at (d ∷ s ++ t))) ≡ pieces (split_lines_at (c ∷ d ∷ s ++ t))
    → pieces (push_unit c (split_lines_at (d ∷ s ++ t))) ≡ join_pieces (push_unit c x) t
push-join_pieces c d s t (p, []) at ih whole =
    whole
    ∙ ap (λ l. pieces (split_lines_at (c ∷ l ++ t))) (sym (lone_piece (d ∷ s) p at))
    ∙ sym (join_lone (c ∷ p) t)
push-join_pieces c d s t (p, q ∷ qs) at ih whole =
    pieces-push_unit c (split_lines_at (d ∷ s ++ t)) p (join_pieces (q, qs) t)
      (ih ∙ join_more p q qs t)
    ∙ sym (join_more (c ∷ p) q qs t)

-- A text is split in two steps: what its first part leaves open goes in front of the second part.
split_lines_at-append :
    (s t : Units) → pieces (split_lines_at (s ++ t)) ≡ join_pieces (split_lines_at s) t
split_lines_at-append [] t = sym (ap (λ x. join_pieces x t) no_pieces ∙ join_lone [] t)
split_lines_at-append (c ∷ []) t = elim (Bool-cases (c == 10)) [
  | inl e ↦
      ap pieces (at_line_feed c t e)
      ∙ sym (
          ap (λ x. join_pieces x t) (at_line_feed c [] e ∙ ap (λ x. ([], pieces x)) no_pieces)
          ∙ join_break ([], []) t
          ∙ ap (λ l. [] ∷ l) (join_lone [] t))
  | inr e ↦ sym (
      ap (λ x. join_pieces x t) (at_other c [] e refl ∙ ap (push_unit c) no_pieces)
      ∙ join_lone (c ∷ []) t)
]
split_lines_at-append (c ∷ d ∷ s) t =
    let ih = split_lines_at-append (d ∷ s) t in
    elim (Bool-cases (c == 10)) [
      | inl e ↦
          ap pieces (at_line_feed c (d ∷ s ++ t) e)
          ∙ ap (λ l. [] ∷ l) ih
          ∙ sym (
              ap (λ x. join_pieces x t) (at_line_feed c (d ∷ s) e)
              ∙ join_break (split_lines_at (d ∷ s)) t)
      | inr e ↦ elim (Bool-cases (c == 13 && d == 10)) [
        | inl f ↦
            ap pieces (at_carriage_return c (d ∷ s ++ t) e f)
            ∙ ih
            ∙ sym (ap (λ x. join_pieces x t) (at_carriage_return c (d ∷ s) e f))
        | inr f ↦
            let other = ap pieces (at_other c (d ∷ s ++ t) e f) in
            other
            ∙ push-join_pieces c d s t (split_lines_at (d ∷ s)) refl ih (sym other)
            ∙ sym (ap (λ x. join_pieces x t) (at_other c (d ∷ s) e f))
      ]
    ]

init-append_pieces :
    (xs : List Units) (p : Units) (ps : List Units) (x : Pieces)
    → pieces x ≡ xs ++ p ∷ ps
    → (init_of x ≡ xs ++ init_from p ps) × (last_of x ≡ last_from p ps)
unfolding init_from last_from
init-append_pieces [] p ps (q, qs) h =
    let first : q ≡ p = cc in
    let rest : qs ≡ ps = cc in (ap₂ init_from first rest, ap₂ last_from first rest)
init-append_pieces (y ∷ []) p ps (q, []) h = absurd (ground arith)
init-append_pieces (y ∷ z ∷ xs) p ps (q, []) h = absurd (ground arith)
init-append_pieces (y ∷ xs) p ps (q, r ∷ rs) h =
    let first : q ≡ y = cc in
    let rest : r ∷ rs ≡ xs ++ p ∷ ps = cc in
    let (i, l) = init-append_pieces xs p ps (r, rs) rest in (ap₂ (λ a b. a ∷ b) first i, l)

emit_each-append :
    (ts : ℕ) (stream : Stream) (xs ys : List Units) (c : Scrollback)
    → emit_each ts stream (xs ++ ys) c ≡ emit_each ts stream ys (emit_each ts stream xs c)
unfolding emit_each
emit_each-append ts stream [] ys c = refl
emit_each-append ts stream (x ∷ xs) ys c =
    emit_each-append ts stream xs ys (emit_text ts stream x c)

split-append_lem :
    (s t : Units)
    → (init_of (split_lines_at (s ++ t))
        ≡ init_of (split_lines_at s) ++ init_of (split_lines_at (last_of (split_lines_at s) ++ t)))
      × (last_of (split_lines_at (s ++ t))
          ≡ last_of (split_lines_at (last_of (split_lines_at s) ++ t)))
split-append_lem s t =
    let open_part = split_lines_at (last_of (split_lines_at s) ++ t) in
    init-append_pieces (init_of (split_lines_at s)) (open_part.0) (open_part.1)
      (split_lines_at (s ++ t)) (split_lines_at-append s t)

emit_lines-append :
    (ts : ℕ) (stream : Stream) (s t : Units) (c : Scrollback)
    → emit_lines ts stream ((emit_lines ts stream s c).0 ++ t) (emit_lines ts stream s c).1
      ≡ emit_lines ts stream (s ++ t) c
unfolding emit_lines
emit_lines-append ts stream s t c =
    let (i, l) = split-append_lem s t in
    let rest = init_of (split_lines_at (last_of (split_lines_at s) ++ t)) in
    ap₂ (λ (u : Units) (d : Scrollback). (u, d)) (sym l)
      (sym (
        ap (λ xs. emit_each ts stream xs c) i
        ∙ emit_each-append ts stream (init_of (split_lines_at s)) rest c))

last-push_unit : (c : ℕ) (x : Pieces) → length (last_of (push_unit c x)) ≤ suc (length (last_of x))
unfolding last_from
last-push_unit c (p, []) = omega arith
last-push_unit c (p, q ∷ qs) = omega arith

-- What stays open of a text is no longer than the text.
length-last_of : (s : Units) → length (last_of (split_lines_at s)) ≤ length s
unfolding last_from
length-last_of [] = rw no_pieces (omega arith)
length-last_of (c ∷ s) = elim (Bool-cases (c == 10)) [
  | inl e ↦ rw (at_line_feed c s e) (omega (arith, length-last_of s))
  | inr e ↦ elim (Bool-cases (ends_line c s)) [
    | inl f ↦ rw (at_carriage_return c s e f) (omega (arith, length-last_of s))
    | inr f ↦
        rw (at_other c s e f) (omega (arith, length-last_of s, last-push_unit c (split_lines_at s)))
  ]
]

feed_text-short :
    (ts : ℕ) (stream : Stream) (chunk buffer : Units) (c : Scrollback)
    → length (buffer ++ chunk) ≤ line_max
    → feed_text ts stream chunk (buffer, c) ≡ emit_lines ts stream (buffer ++ chunk) c
unfolding feed_text
feed_text-short ts stream chunk buffer c h = ground arith

feed_text-feed_text :
    (ts : ℕ) (stream : Stream) (first second buffer : Units) (c : Scrollback)
    → length (buffer ++ (first ++ second)) ≤ line_max
    → feed_text ts stream second (feed_text ts stream first (buffer, c))
      ≡ feed_text ts stream (first ++ second) (buffer, c)
unfolding emit_lines
feed_text-feed_text ts stream first second buffer c h =
    let text = buffer ++ first in
    let open_text = last_of (split_lines_at text) in
    let after = (emit_lines ts stream text c).1 in
    let long : length text + length second ≤ line_max = omega (
      arith,
      length-append buffer (first ++ second),
      length-append first second,
      length-append buffer first,
    ) in
    let short : length (open_text ++ second) ≤ line_max =
      omega (arith, length-append open_text second, length-last_of text) in
    ap (feed_text ts stream second) (feed_text-short ts stream first buffer c (omega arith))
    ∙ feed_text-short ts stream second open_text after short
    ∙ emit_lines-append ts stream text second c
    ∙ ap (λ t. emit_lines ts stream t c) (append_assoc buffer first second)
    ∙ sym (feed_text-short ts stream (first ++ second) buffer c h)

-- Two chunks make the same lines, and leave the same text open, as one chunk with the bytes of both, if
-- no character is cut in two between them and the buffer with the text of both is within 4096 units.
pub feed-feed :
    (decode : List ℕ → Units) (ts : ℕ) (stream : Stream) (first second : List ℕ) (buffer : Units)
    (c : Scrollback)
    → decode (first ++ second) ≡ decode first ++ decode second
    → length (buffer ++ (decode first ++ decode second)) ≤ line_max
    → feed decode ts stream second (feed decode ts stream first (buffer, c))
      ≡ feed decode ts stream (first ++ second) (buffer, c)
unfolding feed
feed-feed decode ts stream first second buffer c whole h =
    feed_text-feed_text ts stream (decode first) (decode second) buffer c h
    ∙ ap (λ text. feed_text ts stream text (buffer, c)) (sym whole)

take-take_append :
    (n : ℕ) (s mark : Units) → n < length s → take n (take n s ++ mark) ≡ take n (take n s)
take-take_append zero s mark h = refl
take-take_append (suc n) [] mark h = absurd (omega arith)
take-take_append (suc n) (c ∷ s) mark h = ap (λ l. c ∷ l) (take-take_append n s mark (omega arith))

emit-of_take :
    (ts : ℕ) (stream : Stream) (s t : Units) (c : Scrollback)
    → take line_max s ≡ take line_max t
    → emit ts stream s c ≡ emit ts stream t c
unfolding emit
emit-of_take ts stream s t c h =
    ap
      (λ (l : Units).
        let line : ConsoleLine = record { seq = c.seq + 1; ts = ts; stream = stream; text = l } in
        record { history = trimmed (c.history ++ line ∷ []); seq = c.seq + 1 })
      h

-- A buffer above the limit comes out as one line of 4096 units, wherever its line ends are, without
-- the mark behind it; of the rest only the last unit stays.
pub feed_text_overflow :
    (ts : ℕ) (stream : Stream) (chunk buffer : Units) (c : Scrollback)
    → line_max < length (buffer ++ chunk)
    → feed_text ts stream chunk (buffer, c)
      ≡ emit_lines ts stream
          (window 1 (buffer ++ chunk))
          (emit ts stream (take line_max (buffer ++ chunk)) c)
unfolding feed_text
feed_text_overflow ts stream chunk buffer c h =
    let text = buffer ++ chunk in
    let above : ltb line_max (length text) ≡ true = ground arith in
    let cut =
      emit-of_take ts stream (take line_max text ++ truncation_mark) (take line_max text) c
        (take-take_append line_max text truncation_mark h) in
    rw (above) (ap (emit_lines ts stream (window 1 text)) cut)
