-- ===== src/Agent/Coordinator/Reasons.antt =====
-- What becomes of the reason of a stop.
use ideate.Common.{String, false, ◌≡◌, ap, ◌∙◌, Option, none, some, if_of_true}
use ideate.Common.Maps.{Map, lookup, set_key, erase, lookup-set_key, lookup-erase}
use ideate.Text.{Text}
use ideate.Text.Laws.{text_eq_refl}
use ideate.Agent.Coordinator.{
  Coordinator, stop_reason_user, leave, is_running, consume_stop_reason, stop,
}
use ideate.Agent.Coordinator.Calls.{stop_inv}
use ideate.Agent.Coordinator.Paired.{has, is_running-has}

lookup_set : {A : Type 0} (k : Text) (v : A) (m : Map A) → lookup k (set_key k v m) ≡ some v
lookup_set k v m = lookup-set_key k k v m ∙ if_of_true _ (text_eq_refl k)

lookup_erased : {A : Type 0} (k : Text) (m : Map A) → lookup k (erase k m) ≡ none
lookup_erased k m = lookup-erase k k m ∙ if_of_true _ (text_eq_refl k)

-- After a Stop that returns no error and the first part of the exit of its session, the session is
-- no longer live, the reason of its uuid is that of the user, and it can be consumed only once.
pub consume_stop_reason-leave :
    (c : Coordinator) (uuid : Text) (c' : Coordinator)
    → stop c uuid ≡ some c'
    → (is_running (leave c' uuid).1 uuid ≡ false)
      × ((consume_stop_reason (leave c' uuid).1 uuid).0 ≡ stop_reason_user)
      × ((consume_stop_reason (consume_stop_reason (leave c' uuid).1 uuid).1 uuid).0 ≡ "")
unfolding leave consume_stop_reason
consume_stop_reason-leave c uuid c' h =
    let (heap, same) = stop_inv c uuid c' h in
    let reason : lookup uuid c'.stop_reasons ≡ some stop_reason_user =
      ap (λ (d : Coordinator). lookup uuid d.stop_reasons) same
      ∙ lookup_set uuid stop_reason_user c.stop_reasons in
    (
      is_running-has (leave c' uuid).1 uuid ∙ ap has (lookup_erased uuid c'.sessions),
      ap reason_or reason,
      ap reason_or (lookup_erased uuid c'.stop_reasons),
    )
  where
    reason_or : Option String → String
    reason_or none = ""
    reason_or (some r) = r
