-- ===== src/Tests/Runtime.antt =====
-- Tests of the engine's console.
use renom.Prelude.{
  List, Option, Units, [], arith, codes, if◌then◌else◌, length, none, refl, some, units_eq, ℕ, ◌++◌,
  ◌<◌, ◌∷◌, ◌≡◌, ◌≤◌,
}
use renom.Errors.{ok}
use renom.JsMap
use renom.Runtime.Launch.{substitute}
use renom.Runtime.Slot.{Engine, child, offline, on_error, running, start, state_of}
use renom.Runtime.Slot.Faults.{start-on_error}
use renom.Runtime.Console.{window, Scrollback, emit_each, feed, input_of, line_max, stdout}
use renom.Runtime.Console.Input.{IsPlain, input_of-IsPlain}
use renom.Runtime.Console.Lines.{feed-feed}
use renom.Runtime.Console.Window.{Refines, emit_each-Refines, logged}

abbrev fresh : Scrollback
fresh = record { history = []; seq = 0 }

emit_each-Refines_example :
    Refines
      (emit_each 5 stdout (codes "a" ∷ [] ∷ codes "b" ∷ []) fresh)
      (logged 5 stdout (codes "a" ∷ [] ∷ codes "b" ∷ []) [])
unfolding window
emit_each-Refines_example =
    emit_each-Refines 5 stdout (codes "a" ∷ [] ∷ codes "b" ∷ []) fresh [] (refl, refl)

-- A decoder that agrees with that of UTF-8 on the bytes of ASCII.
abbrev ascii : List ℕ → Units
ascii bytes = bytes

abbrev first_chunk : List ℕ
first_chunk = codes "do" ++ 13 ∷ []

abbrev second_chunk : List ℕ
second_chunk = 10 ∷ codes "ne"

feed-feed_example :
    feed ascii 5 stdout second_chunk (feed ascii 5 stdout first_chunk ([], fresh))
    ≡ feed ascii 5 stdout (first_chunk ++ second_chunk) ([], fresh)
feed-feed_example = feed-feed ascii 5 stdout first_chunk second_chunk [] fresh refl (omega arith)

smuggled : input_of (codes "say hi" ++ 10 ∷ codes "stop") ≡ some (codes "say histop" ++ 10 ∷ [])
unfolding input_of
smuggled = refl

input_of-IsPlain_example :
    (command : Units) × (codes "say histop" ++ 10 ∷ [] ≡ command ++ 10 ∷ [])
    × IsPlain command
    × (0 < length command)
    × (length command ≤ line_max)
input_of-IsPlain_example =
    input_of-IsPlain (codes "say hi" ++ 10 ∷ codes "stop") (codes "say histop" ++ 10 ∷ []) smuggled

abbrev idle : Engine
idle = record { live = none; status = some "ready"; runtime_state = none; alive = [] }

abbrev up : Engine
up = (start 1 (ok tt) (child (some 7)) idle).1

up_alive : (up.alive ≡ 7 ∷ []) × (state_of up ≡ running)
unfolding start state_of
up_alive = (refl, refl)

start-on_error_example :
    (state_of (on_error 2 [] up) ≡ offline)
    × ((start 2 (ok tt) (child (some 8)) (on_error 2 [] up)).0 ≡ ok tt)
    × ((start 2 (ok tt) (child (some 8)) (on_error 2 [] up)).1.alive ≡ up.alive ++ 8 ∷ [])
unfolding start
start-on_error_example = start-on_error 2 [] 8 up refl

-- A value with braces is not replaced again, and a variable without a value stays.
abbrev vars : List (Units × Units)
vars = (codes "RAM", codes "{JAR}") ∷ (codes "JAR", codes "a.jar") ∷ []

-- One of the names that every object has.
abbrev prototype : Units → Option Units
prototype name =
    if units_eq name (codes "constructor")
    then some (codes "function Object() { [native code] }")
    else none

replaced : substitute prototype (codes "-Xmx{RAM} {JAR} {NO}") vars ≡ codes "-Xmx{JAR} a.jar {NO}"
unfolding substitute JsMap.get
replaced = refl

inherits :
    substitute prototype (codes "{constructor}") vars ≡ codes "function Object() { [native code] }"
unfolding substitute JsMap.get
inherits = refl
