-- ===== src/Erc/Notes.antt =====
-- The sidenotes of apps/api/src/modules/erc/erc.repository.ts, and custom-erc-reviews.repository.ts.
use veervrat_app.Base.{
  ℕ, Bool, ◌&&◌, not, Option, none, some, ◌∷◌, ◌==◌, is_id, is_some, find_in, update_one,
}
use veervrat_app.Model.{
  ErcType, erc_type_eq, VmSidenote, CustomErcReview, pending, Text, Db, Service, return,
}

-- the sidenote of this item
abbrev pub names_item : ErcType → ℕ → VmSidenote → Bool
names_item kind id s = erc_type_eq s.kind kind && is_id s.item_id id

abbrev pub active_sidenote : ErcType → ℕ → Db → Option VmSidenote
active_sidenote kind id db =
    find_in (λ s. names_item kind id s && not (is_some s.revoked_at)) db.sidenotes

-- custom-erc-reviews.repository.ts
unfoldable pub create_review :
    (fresh submitted_by_id item_id : ℕ) → ErcType → Service CustomErcReview
create_review fresh submitted_by_id item_id kind db =
    let review : CustomErcReview = record {
      id = fresh;
      entity_type = kind;
      item_id = some item_id;
      submitted_by_id = submitted_by_id;
      status = pending;
      reviewed_by_id = none;
      reviewed_at = none;
      review_note = none;
    } in
    return review (record db { reviews = review ∷ db.reviews })

-- The sidenote that a vratmitra leaves on an item, one for an item.
abbrev pub suggested_row : (vm_id : ℕ) → Text → VmSidenote → VmSidenote
suggested_row vm_id text s = record s {
  vm_id = vm_id;
  text = text;
  acknowledged_at = none;
  revoked_at = none;
}

abbrev pub new_sidenote : (fresh item_id vm_id : ℕ) → Text → ErcType → VmSidenote
new_sidenote fresh item_id vm_id text kind = record {
  id = fresh;
  kind = kind;
  item_id = some item_id;
  vm_id = vm_id;
  text = text;
  acknowledged_at = none;
  revoked_at = none;
}

abbrev pub upsert_found :
    (fresh item_id vm_id : ℕ) → Text → ErcType → Option VmSidenote → Service VmSidenote
upsert_found fresh item_id vm_id text kind none db =
    let s = new_sidenote fresh item_id vm_id text kind in
    return s (record db { sidenotes = s ∷ db.sidenotes })
upsert_found fresh item_id vm_id text kind (some s) db =
    return (suggested_row vm_id text s) (record db {
      sidenotes = update_one (names_item kind item_id) (suggested_row vm_id text) db.sidenotes;
    })

unfoldable pub upsert_sidenote : (fresh item_id vm_id : ℕ) → Text → ErcType → Service VmSidenote
upsert_sidenote fresh item_id vm_id text kind db =
    upsert_found fresh item_id vm_id text kind (find_in (names_item kind item_id) db.sidenotes) db

-- The two changes of an active sidenote. The foreign key is unique, so that the sidenote which
-- the query finds is the one row with it.
abbrev pub change_sidenote :
    (VmSidenote → VmSidenote) → Option VmSidenote → Service (Option VmSidenote)
change_sidenote change none db = return none db
change_sidenote change (some s) db =
    return (some (change s))
      (record db { sidenotes = update_one (λ t. t.id == s.id) change db.sidenotes })

abbrev pub revoked_row : (now : ℕ) → VmSidenote → VmSidenote
revoked_row now s = record s { revoked_at = some now; acknowledged_at = none }

abbrev pub acknowledged_row : (now : ℕ) → VmSidenote → VmSidenote
acknowledged_row now s = record s { acknowledged_at = some now }

unfoldable pub revoke_sidenote : (now item_id : ℕ) → ErcType → Service (Option VmSidenote)
revoke_sidenote now item_id kind db =
    change_sidenote (revoked_row now) (active_sidenote kind item_id db) db

unfoldable pub acknowledge_sidenote : (now item_id : ℕ) → ErcType → Service (Option VmSidenote)
acknowledge_sidenote now item_id kind db =
    change_sidenote (acknowledged_row now) (active_sidenote kind item_id db) db
