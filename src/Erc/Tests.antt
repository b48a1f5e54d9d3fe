-- ===== src/Erc/Tests.antt =====
-- The item requests on a small database.
use veervrat_app.Base.{
  ◌≡◌, refl, ◌⊎◌, inl, inr, ◌≤◌, none, some, [], ◌∷◌, Some, All, find_in, filter_by, some_of,
  update_where, update_one, delete_one, order_by, length, count_of, arith,
}
use veervrat_app.Model.{
  exposure, submitted, approved, JourneyErcItem, Db, err, access_denied, CheckinStatus, done,
  missed, ResolutionCheckin, invalid_erc_status_transition, in_order,
}
use veervrat_app.Permissions.{
  has_role, is_active_journey_vm, is_global_vm_for_journey, has_active_journey_vm,
}
use veervrat_app.Permissions.Check.{has_permission}
use veervrat_app.Journeys.{
  find_by_id, live_journey, active_assignments, active_global_vm, build_journey_slim,
  group_by_status, count_by_status,
}
use veervrat_app.Journeys.Tests.{owner, mentor, base, item}
use veervrat_app.Erc.{
  find_item, find_by_pool_item_id, insert_item, save_item, select_pool_item, set_status,
  set_deactivated, remove_item, set_review_status, create_review, list_with_streak, with_streak,
  create_checkin,
}
use veervrat_app.Erc.Moves.{IsDated, HasEnded, WasRemoved, is_approved}
use veervrat_app.Erc.Operations.{
  valid_transitions, recipients, get_journey_and_check_permission, get_item, update_status,
  approve_item, revisit_item, deactivate, remove, select_item, submit_for_review,
}
use veervrat_app.Erc.Requests.{
  ErcCall, update, on, approve, serve, serve_all, serve_all-IsDated, serve-HasEnded, MayCloseOn,
  serve-closes,
}
use veervrat_app.Erc.Moves.{HasClosed}
use veervrat_app.Erc.Checkins.{with_streak-done_ends}

service : Unit {0}
unfolding has_permission has_role is_active_journey_vm is_global_vm_for_journey
    has_active_journey_vm some_of filter_by find_in update_where update_one delete_one order_by
    find_by_id live_journey active_assignments active_global_vm build_journey_slim group_by_status
    count_by_status find_item find_by_pool_item_id insert_item save_item select_pool_item set_status
    set_deactivated remove_item set_review_status create_review valid_transitions recipients
    get_journey_and_check_permission get_item update_status approve_item revisit_item deactivate
    remove select_item submit_for_review list_with_streak create_checkin count_of
service = tt

abbrev sent : JourneyErcItem
sent = record item { id = 31; status = submitted; submitted_at = some 2 }

abbrev closed : JourneyErcItem
closed = record item { id = 32; status = approved; submitted_at = some 2; approved_at = some 3 }

abbrev stocked : Db
stocked = record base { items = item ∷ sent ∷ closed ∷ [] }

abbrev submission : ErcCall
submission = record {
  now = 9;
  user = owner;
  journey_id = 10;
  kind = exposure;
  request = on 30 (update submitted);
}

abbrev approval : ErcCall
approval = record {
  now = 10;
  user = mentor;
  journey_id = 10;
  kind = exposure;
  request = on 31 approve;
}

erc_tests :
    ((update_status in_order 9 owner 10 31 approved exposure stocked).0 ≡ err access_denied)
    × ((update_status in_order 9 owner 10 32 submitted exposure stocked).0
        ≡ err (invalid_erc_status_transition approved submitted))
    × (count_of is_approved (serve_all in_order (submission ∷ approval ∷ []) stocked).items ≡ 2)
    × (length (serve_all in_order (submission ∷ []) stocked).notifications ≡ 1)
unfolding service
erc_tests = (refl, refl, refl, refl)

item-IsDated : IsDated item
item-IsDated = record {
  fresh = λ h. ground arith;
  begun = λ h. refl;
  unsent = λ h. refl;
  sent = λ h k. absurd (k refl);
  closed = λ h. ground arith;
  unclosed = λ h. refl;
}

sent-IsDated : IsDated sent
sent-IsDated = record {
  fresh = λ h. ground arith;
  begun = λ h. refl;
  unsent = λ h. ground arith;
  sent = λ h k. refl;
  closed = λ h. ground arith;
  unclosed = λ h. refl;
}

closed-IsDated : IsDated closed
closed-IsDated = record {
  fresh = λ h. ground arith;
  begun = λ h. refl;
  unsent = λ h. ground arith;
  sent = λ h k. refl;
  closed = λ h. refl;
  unclosed = λ h. absurd (h refl);
}

items-IsDated : All IsDated stocked.items
items-IsDated = (item-IsDated, (sent-IsDated, (closed-IsDated, tt)))

serve_all-IsDated_example :
    All IsDated (serve_all in_order (submission ∷ approval ∷ []) stocked).items
unfolding service
serve_all-IsDated_example =
    serve_all-IsDated in_order (submission ∷ approval ∷ []) stocked items-IsDated

serve-HasEnded_example :
    let db' = serve in_order 10 mentor 10 exposure (on 31 approve) stocked in
    Some (HasEnded exposure 32 approved) db'.items ⊎ WasRemoved stocked.items db'.items
unfolding service
serve-HasEnded_example =
    serve-HasEnded in_order approval exposure 32 approved stocked (inl refl)
      (inr (inr (inl (refl, refl))))

serve-closes_example :
    (count_of is_approved (serve in_order 10 mentor 10 exposure (on 31 approve) stocked).items
      ≤ count_of is_approved stocked.items)
    ⊎ HasClosed
        (MayCloseOn in_order mentor stocked)
        stocked.items
        (serve in_order 10 mentor 10 exposure (on 31 approve) stocked).items
serve-closes_example = serve-closes in_order approval stocked

abbrev checkin : CheckinStatus → ResolutionCheckin
checkin status = record {
  id = 50;
  journey_resolution_id = 40;
  status = status;
  note = none;
  checked_in_at = 1;
}

with_streak-done_ends_example :
    (with_streak (checkin done ∷ checkin missed ∷ checkin done ∷ checkin done ∷ [])).streak ≡ 2
with_streak-done_ends_example =
    with_streak-done_ends (checkin done ∷ checkin missed ∷ checkin done ∷ checkin done ∷ [])

abbrev annotated : Db
annotated = record stocked {
  sidenotes =
      record {
        id = 60;
        kind = exposure;
        item_id = some 31;
        vm_id = 3;
        text = [];
        acknowledged_at = some 4;
        revoked_at = some 5;
      }
      ∷ [];
}
