-- ===== src/Prelude/Values.antt =====
-- Values of JSON, as far as the code tells their types apart: Go's `any` behind a decoder, and the
-- documents that stand in a `json.RawMessage`.
use Prim.Native.String.{String}
use mathlib.Core.List.{List, [], ◌∷◌}

-- A number or a Boolean is `other`.
mutual
  pub data Json : Type 0 where
    null : Json
    string : String → Json
    object : Fields → Json
    array : Items → Json
    other : Json

  pub data Fields : Type 0 where
    no_fields : Fields
    field : String → Json → Fields → Fields

  pub data Items : Type 0 where
    no_items : Items
    item : Json → Items → Items

unfoldable pub pairs_of : Fields → List (String × Json)
pairs_of no_fields = []
pairs_of (field k v fs) = (k, v) ∷ pairs_of fs

unfoldable pub items_of : Items → List Json
items_of no_items = []
items_of (item v vs) = v ∷ items_of vs
