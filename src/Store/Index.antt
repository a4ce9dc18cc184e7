-- ===== src/Store/Index.antt =====
-- What the receiver uses of an ordered unique index of the state database: `create`, `find`,
-- `modify`, `remove` and `lower_bound`, over the rows in the order of the key.
pub mod LowerBound
pub mod Rows
use fio_chronicle.Prelude.{Bool, List, [], ◌∷◌, Option, none, some, if◌then◌else◌}

module _ {A : Type 0} where
  -- `db->create`: the row goes to its place; `none` where its key is taken, which throws.
  abbrev pub push_row : A → Option (List A) → Option (List A)
  push_row y none = none
  push_row y (some ys) = some (y ∷ ys)

  unfoldable pub create : (A → A → Bool) → A → List A → Option (List A)
  create before x [] = some (x ∷ [])
  create before x (y ∷ ys) =
      if before x y
      then some (x ∷ y ∷ ys)
      else if before y x
      then push_row y (create before x ys)
      else none

  -- `idx.find(key)`, as the first row with that key.
  unfoldable pub find : (A → Bool) → List A → Option A
  find is_key [] = none
  find is_key (x ∷ xs) = if is_key x then some x else find is_key xs

  -- `db->modify(*itr, f)`
  unfoldable pub modify_row : (A → Bool) → (A → A) → List A → List A
  modify_row is_key f [] = []
  modify_row is_key f (x ∷ xs) = if is_key x then f x ∷ xs else x ∷ modify_row is_key f xs

  -- `db->remove(*itr)`
  unfoldable pub remove : (A → Bool) → List A → List A
  remove is_key [] = []
  remove is_key (x ∷ xs) = if is_key x then xs else x ∷ remove is_key xs

  abbrev pub nearer : (A → A → Bool) → A → Option A → Option A
  nearer before x none = some x
  nearer before x (some y) = if before y x then some y else some x

  -- `idx.lower_bound(key)`: of the rows that do not stand before the key, the first in the order
  -- of the index; `none` is `idx.end()`.
  unfoldable pub lower_bound : (A → A → Bool) → (A → Bool) → List A → Option A
  lower_bound before below [] = none
  lower_bound before below (x ∷ xs) =
      if below x then lower_bound before below xs else nearer before x (lower_bound before below xs)
