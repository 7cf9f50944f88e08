-- ===== src/Json.antt =====
-- The values that `JSON.parse` returns, as far as the program tells them apart.
use renom.Prelude.{Bool, List, String, [], ◌∷◌}

mutual
  pub data Json : Type 0 where
    null : Json
    bool : Bool → Json
    num : Json
    str : String → Json
    arr : Items → Json
    obj : Json

  pub data Items : Type 0 where
    nil : Items
    cons : Json → Items → Items

abbrev pub items : Items → List Json
items nil = []
items (cons v vs) = v ∷ items vs
