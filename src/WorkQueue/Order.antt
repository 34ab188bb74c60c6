-- ===== src/WorkQueue/Order.antt =====
-- The order of engine/work_queue.py's `_sort_key`.
use zero_shadow_autonomous_a.Prelude.{◌≡◌, ◌⊎◌, true, arith}
use zero_shadow_autonomous_a.Prelude.Sorting.{Order}
use zero_shadow_autonomous_a.Prelude.Text.{text_le_total, text_le_trans}
use zero_shadow_autonomous_a.WorkQueue.{QueueItem, item_le, finding_id}

item_le_total : (a b : QueueItem) → (item_le a b ≡ true) ⊎ (item_le b a ≡ true)
unfolding item_le
item_le_total a b = ground (arith, text_le_total (finding_id a) (finding_id b))

item_le_trans : (a b c : QueueItem) → item_le a b ≡ true → item_le b c ≡ true → item_le a c ≡ true
unfolding item_le
item_le_trans a b c h k = ground (arith, text_le_trans (finding_id a) (finding_id b) (finding_id c))

pub item-Order : Order item_le
item-Order = record { total = item_le_total; trans = item_le_trans }
