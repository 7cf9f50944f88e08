-- ===== src/Runtime/Console.antt =====
-- The console of a slot of engine.ts: `emit`, `feed`, `flush`, `history` and the text that `sendInput`
-- writes. A chunk is its bytes, and the
-- `decode` that turns it into text is `String` of a `Buffer`; `ts` is the time that the source reads.
pub mod Window
pub mod Lines
pub mod Input
use renom.Prelude.{
  Bool, List, Option, Units, [], codes, drop, if◌then◌else◌, leb, length, ltb, max, min, none, some,
  take, ℕ, ◌++◌, ◌+◌, ◌-◌, ◌==◌, ◌||◌, ◌∷◌,
}
use renom.JsText.Split.{Pieces, split_lines_at}

pub data Stream : Type 0 where
  stdout stderr system : Stream

pub record ConsoleLine : Type 0 where
  pub seq : ℕ
  pub ts : ℕ
  pub stream : Stream
  pub text : Units

-- The fields of `LiveProcess` that the console keeps.
pub record Scrollback : Type 0 where
  pub history : List ConsoleLine
  pub seq : ℕ

abbrev pub history_limit : ℕ
history_limit = 500

abbrev pub line_max : ℕ
line_max = 4096

-- The last `n` items: `slice(-n)` for a positive `n`.
unfoldable pub window {ℓ} : {A : Type ℓ} → ℕ → List A → List A
window n xs = drop (length xs - n) xs

abbrev pub console_line : ℕ → Stream → Units → Scrollback → ConsoleLine
console_line ts stream text c = record {
  seq = c.seq + 1;
  ts = ts;
  stream = stream;
  text = take line_max text;
}

-- The history after a line was pushed: `splice` drops what is above the limit.
unfoldable pub trimmed : List ConsoleLine → List ConsoleLine
trimmed history =
    if ltb history_limit (length history)
    then drop (length history - history_limit) history
    else history

unfoldable pub emit : ℕ → Stream → Units → Scrollback → Scrollback
unfolding trimmed
emit ts stream text c = record {
  history = trimmed (c.history ++ console_line ts stream text c ∷ []);
  seq = c.seq + 1;
}

-- A text that is not empty is emitted.
unfoldable pub emit_text : ℕ → Stream → Units → Scrollback → Scrollback
unfolding emit
emit_text ts stream text c = if ltb 0 (length text) then emit ts stream text c else c

-- The texts that are not empty are emitted in turn.
unfoldable pub emit_each : ℕ → Stream → List Units → Scrollback → Scrollback
unfolding emit_text
emit_each ts stream [] c = c
emit_each ts stream (text ∷ texts) c = emit_each ts stream texts (emit_text ts stream text c)

-- The pieces of a text but for the last one, which `parts.pop()` takes off.
unfoldable pub init_from : Units → List Units → List Units
init_from p [] = []
init_from p (q ∷ qs) = p ∷ init_from q qs

unfoldable pub last_from : Units → List Units → Units
last_from p [] = p
last_from p (q ∷ qs) = last_from q qs

abbrev pub init_of : Pieces → List Units
init_of (p, ps) = init_from p ps

abbrev pub last_of : Pieces → Units
last_of (p, ps) = last_from p ps

-- What is emitted of a chunk behind the buffered text, and what stays in the buffer.
unfoldable pub emit_lines : ℕ → Stream → Units → Scrollback → Units × Scrollback
unfolding emit_each init_from last_from split_lines_at
emit_lines ts stream text c =
    (last_of (split_lines_at text), emit_each ts stream (init_of (split_lines_at text)) c)

-- The mark behind a text that is cut: an ellipsis and `[truncated]`.
abbrev pub truncation_mark : Units
truncation_mark = 0x2026 ∷ codes "[truncated]"

-- A buffer above the limit is emitted as one line, but for its last unit.
unfoldable pub feed_text : ℕ → Stream → Units → Units × Scrollback → Units × Scrollback
unfolding emit emit_lines window
feed_text ts stream added (buffer, c) =
    let text = buffer ++ added in
    if ltb line_max (length text)
    then emit_lines ts stream (window 1 text)
        (emit ts stream (take line_max text ++ truncation_mark) c)
    else emit_lines ts stream text c

-- Each chunk is decoded by itself.
unfoldable pub feed :
    (List ℕ → Units) → ℕ → Stream → List ℕ → Units × Scrollback → Units × Scrollback
unfolding feed_text
feed decode ts stream chunk = feed_text ts stream (decode chunk)

-- `flush`, on exit.
unfoldable pub flush : ℕ → Stream → Units × Scrollback → Units × Scrollback
unfolding emit_text
flush ts stream (buffer, c) = ([], emit_text ts stream buffer c)

-- `history(id, limit)`: at least one line and at most as many as are kept.
unfoldable pub history_of : ℕ → Scrollback → List ConsoleLine
unfolding window
history_of limit c = window (min (max limit 1) history_limit) c.history

-- `/[\u0000-\u001f\u007f]/`.
unfoldable pub is_control : ℕ → Bool
is_control c = leb c 0x1f || c == 0x7f

-- `replace` of each match by nothing.
unfoldable pub strip_control : Units → Units
unfolding is_control
strip_control [] = []
strip_control (c ∷ s) = let rest = strip_control s in if is_control c then rest else c ∷ rest

-- What `sendInput` writes to a process that runs, if anything.
unfoldable pub input_of : Units → Option Units
unfolding strip_control
input_of line =
    let clean = take line_max (strip_control line) in
    if length clean == 0 then none else some (clean ++ 10 ∷ [])
