-- ===== src/UiAdaptor/Trees.antt =====
-- `list_to_str` of ioppytest/ui_adaptor/ui_tasks.py, and the tests of a field of a report in
-- message_translators.py.
use ioppytest.Prelude.{
  Bool, false, List, [], ◌∷◌, ◌++◌, ◌||◌, Text, codes, lower, ◌==◌, contains_text, Result, ok,
  raised, type_error, attribute_error,
}

-- What a field of a report holds: `None`, a text, or a list, which is read down to its second
-- level. Texts that are empty are dropped there, and so is all that lies deeper.
pub data Leaf : Type 0 where
  nothing deeper : Leaf
  word : Text → Leaf

pub data Item : Type 0 where
  null : Item
  line : Text → Item
  lines : List Leaf → Item

pub data Tree : Type 0 where
  null : Tree
  text : Text → Tree
  items : List Item → Tree

abbrev end_line : Text
end_line = codes " \n "

leaf_to_str : Leaf → Text
leaf_to_str (word (c ∷ s)) = (c ∷ s) ++ end_line
leaf_to_str _ = []

leaves_to_str : List Leaf → Text
unfolding leaf_to_str
leaves_to_str [] = []
leaves_to_str (l ∷ rest) = leaf_to_str l ++ leaves_to_str rest

-- An empty list is shown, as `[]`.
item_to_str : Item → Text
unfolding leaves_to_str
item_to_str Item.null = codes "None" ++ end_line
item_to_str (line t) = t ++ end_line
item_to_str (lines []) = codes "[]" ++ end_line
item_to_str (lines (l ∷ ls)) = leaves_to_str (l ∷ ls)

unfoldable pub items_to_str : List Item → Text
unfolding item_to_str
items_to_str [] = []
items_to_str (i ∷ rest) = item_to_str i ++ items_to_str rest

unfoldable pub list_to_str : Tree → Text
list_to_str Tree.null = codes "None"
list_to_str (text t) = t
list_to_str (items l) = items_to_str l

-- `part in value`, for a value of the report.
is_item : Text → List Item → Bool
is_item part [] = false
is_item part (line t ∷ rest) = t == part || is_item part rest
is_item part (i ∷ rest) = is_item part rest

unfoldable pub is_in : Text → Tree → Result Bool
unfolding is_item
is_in part Tree.null = raised type_error
is_in part (text t) = ok (contains_text part t)
is_in part (items l) = ok (is_item part l)

-- `part in value.lower()`
unfoldable pub is_in_lower : Text → Tree → Result Bool
is_in_lower part (text t) = ok (contains_text part (lower t))
is_in_lower part _ = raised attribute_error
