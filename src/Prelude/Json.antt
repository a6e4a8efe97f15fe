-- ===== src/Prelude/Json.antt =====
-- JSON values, as `json.loads` returns them. Numbers are natural: ticks, sizes, counts.
use Prim.Native.Nat.{ℕ}
use mathlib.Core.Path.{◌≡◌, refl, ap}
use mathlib.Core.Bool.{Bool}
use mathlib.Core.List.{List, [], ◌∷◌}
use solutions_library.Prelude.Text.{Text}
use solutions_library.Prelude.Dict.{Dict}

mutual
  pub data Json : Type 0 where
    null : Json
    bool : Bool → Json
    num : ℕ → Json
    str : Text → Json
    arr : Items → Json
    obj : Fields → Json

  pub data Items : Type 0 where
    nil : Items
    cons : Json → Items → Items

  pub data Fields : Type 0 where
    end : Fields
    field : Text → Json → Fields → Fields

-- The dict of an object's fields, and the object of a dict.
unfoldable pub entries : Fields → Dict Json
entries end = []
entries (field k v fs) = (k, v) ∷ entries fs

unfoldable pub fields : Dict Json → Fields
fields [] = end
fields ((k, v) ∷ d) = field k v (fields d)

pub entries-fields : (d : Dict Json) → entries (fields d) ≡ d
unfolding entries fields
entries-fields [] = refl
entries-fields ((k, v) ∷ d) = ap (◌∷◌ (k, v)) (entries-fields d)

-- The list of an array's items, and the array of a list.
unfoldable pub elements : Items → List Json
elements nil = []
elements (cons x xs) = x ∷ elements xs

unfoldable pub items : List Json → Items
items [] = nil
items (x ∷ xs) = cons x (items xs)

pub elements-items : (xs : List Json) → elements (items xs) ≡ xs
unfolding elements items
elements-items [] = refl
elements-items (x ∷ xs) = ap (◌∷◌ x) (elements-items xs)

-- Short forms for values that a program writes.
abbrev pub object : Dict Json → Json
object d = Json.obj (fields d)

abbrev pub array : List Json → Json
array xs = Json.arr (items xs)
