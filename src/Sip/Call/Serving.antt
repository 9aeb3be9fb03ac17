-- ===== src/Sip/Call/Serving.antt =====
-- src/sip.rs and src/web/state.rs: the record of an incoming call in the registry.
use sipbot.Prelude.{ℕ, ◌≡◌, refl, Option, some}
use sipbot.Prelude.Text.{Text, text_eq_self}
use sipbot.Web.Record.{CallRecord}
use sipbot.Web.Registry.{Registry, get, get_or_create, update}
use sipbot.Web.Registry.Lookup.{get-get_or_create, get-update}
use sipbot.Config.Account.{AccountConfig}
use sipbot.Sip.Call.Task.{describe, flag_duplicate, start_record}

-- A write through the record of a call is what the registry gives back.
get-update_same :
    (f : CallRecord → CallRecord) (call_id : Text) (calls : Registry) (r : CallRecord)
    → ((x : CallRecord) → (f x).call_id ≡ x.call_id)
    → get calls call_id ≡ some r
    → get (update f call_id calls) call_id ≡ some (f r)
get-update_same f call_id calls r same found =
    rw (get-update f call_id call_id calls same, text_eq_self call_id, found) refl

-- Whatever the registry holds and however full it is, the record that an incoming call works on is
-- the one that the registry gives for its call id, with all that the call has written into it.
get-start_record :
    (calls : Registry) (account : AccountConfig) (call_id caller callee : Text)
    (recording : Option Text) (now : ℕ)
    → get (start_record calls account call_id caller callee recording now).1 call_id
      ≡ some (start_record calls account call_id caller callee recording now).0
unfolding start_record
get-start_record calls account call_id caller callee recording now =
    get-update_same _ call_id _ _ (λ x. unfold flag_duplicate in refl)
      (get-update_same (describe account caller callee recording) call_id
        (get_or_create calls call_id now).1 (get_or_create calls call_id now).0
        (λ x. unfold describe in refl) (get-get_or_create calls call_id now))
