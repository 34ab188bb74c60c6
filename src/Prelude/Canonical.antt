-- ===== src/Prelude/Canonical.antt =====
-- The value that a JSON text with sorted keys stands for: every object with its fields in the order of their
-- keys.
use zero_shadow_autonomous_a.Prelude.Base.{suc, String, ◌≡◌, refl, ap, if◌then◌else◌, length}
use zero_shadow_autonomous_a.Prelude.Json.{
  Value, Fields, Items, null, obj, bool, int, real, arr, str, end, field, nil, cons, items,
}
use zero_shadow_autonomous_a.Prelude.Text.{text_le}

unfoldable pub insert_field : String → Value → Fields → Fields
insert_field k v end = field k v end
insert_field k v (field j w rest) =
    let more = insert_field k v rest in
    if text_le k j then field k v (field j w rest) else field j w more

unfoldable mutual
  unfolding insert_field

  pub sorted_fields : Fields → Fields
  sorted_fields end = end
  sorted_fields (field k v rest) = insert_field k (sorted_value v) (sorted_fields rest)

  pub sorted_value : Value → Value
  sorted_value (obj fs) = obj (sorted_fields fs)
  sorted_value (arr vs) = arr (sorted_items vs)
  sorted_value null = null
  sorted_value (bool b) = bool b
  sorted_value (int n) = int n
  sorted_value (real r) = real r
  sorted_value (str s) = str s

  pub sorted_items : Items → Items
  sorted_items nil = nil
  sorted_items (cons v vs) = cons (sorted_value v) (sorted_items vs)

pub length-sorted_items : (vs : Items) → length (items (sorted_items vs)) ≡ length (items vs)
unfolding sorted_items
length-sorted_items nil = refl
length-sorted_items (cons v vs) = ap suc (length-sorted_items vs)
