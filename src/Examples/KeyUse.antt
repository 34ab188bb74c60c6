-- ===== src/Examples/KeyUse.antt =====
-- database/evidence_keyring.py on a keyring of one key. `parse` reads a text as its length.
use zero_shadow_autonomous_a.Prelude.{ℕ, String, ◌≡◌, refl, List, Result, ok, length}
use zero_shadow_autonomous_a.Prelude.Json
use zero_shadow_autonomous_a.Prelude.Json.{
  Value, Fields, str, int, obj, arr, field, end, cons, nil, get,
}
use zero_shadow_autonomous_a.Prelude.Int.{pos}
use zero_shadow_autonomous_a.Prelude.Text.{codes}
use zero_shadow_autonomous_a.Keyring
use zero_shadow_autonomous_a.Keyring.{TimeError, authorize_key_use, non_empty_keys}
use zero_shadow_autonomous_a.Keyring.Windows.{
  Usable, IsEntry, authorize_key_use-Usable, authorize-create_verify,
}

abbrev clock : String → Result TimeError ℕ
clock s = ok (length (codes s))

abbrev keyring : Fields
keyring = field "schema_version" (int (pos 1)) (
    field "keys"
      (arr (
        cons
          (obj (
            field "key_id" (str "k-1") (
              field "state" (str "active")
                (field "activate_at" (str "12") (field "verify_until" (str "123456") end)))))
          nil))
      end)

opened : Unit {0}
unfolding authorize_key_use Keyring.check_key Keyring.time_of Keyring.select_key Json.get
    Json.lookup Json.put
opened = tt

may_create : authorize_key_use clock (obj keyring) "k-1" "create" (str "1234") ≡ ok tt
unfolding opened
may_create = refl

authorize_key_use-Usable_example :
    (raw_keys : List Value) × (item : Fields) × (non_empty_keys (get "keys" keyring) ≡ ok raw_keys)
    × IsEntry "k-1" raw_keys item
    × Usable clock item "create" (str "1234")
authorize_key_use-Usable_example =
    authorize_key_use-Usable clock keyring "k-1" "create" (str "1234") may_create

authorize-create_verify_example :
    authorize_key_use clock (obj keyring) "k-1" "verify" (str "1234") ≡ ok tt
authorize-create_verify_example =
    authorize-create_verify clock (obj keyring) "k-1" (str "1234") may_create
