-- ===== src/Erc/Sidenotes.antt =====
-- What is read of a vratmitra's sidenote after it was written.
use veervrat_app.Base.{
  ℕ, ◌≡◌, refl, inl, inr, ◌&&◌, not, none, some, List, [], ◌∷◌, is_some, find_in, update_one, arith,
  Bool, Option-cases,
}
use veervrat_app.Model.{ErcType, erc_type_eq, VmSidenote, Text, Db, ok}
use veervrat_app.Erc.{names_item, suggested_row, active_sidenote, upsert_sidenote}

erc_type_eq_refl : (kind : ErcType) → erc_type_eq kind kind ≡ Bool.true
erc_type_eq_refl kind = ground arith

find-update_note :
    (kind : ErcType) (item_id vm_id : ℕ) (text : Text) (notes : List VmSidenote) (s : VmSidenote)
    → find_in (names_item kind item_id) notes ≡ some s
    → find_in
        (λ t. names_item kind item_id t && not (is_some t.revoked_at))
        (update_one (names_item kind item_id) (suggested_row vm_id text) notes)
      ≡ some (suggested_row vm_id text s)
unfolding find_in update_one
find-update_note kind item_id vm_id text [] s f = cc
find-update_note kind item_id vm_id text (t ∷ notes) s f =
    ground (arith, find-update_note kind item_id vm_id text notes s)

-- Whether or not the item had a sidenote before, active or revoked, what a vratmitra writes is the
-- item's active sidenote, in the vratmitra's name, with that text and not yet acknowledged.
pub upsert_sidenote-active :
    (fresh item_id vm_id : ℕ) (text : Text) (kind : ErcType) (db : Db)
    → let (r, db') = upsert_sidenote fresh item_id vm_id text kind db in
      (s : VmSidenote) × (r ≡ ok s)
      × (active_sidenote kind item_id db' ≡ some s)
      × (s.vm_id ≡ vm_id)
      × (s.text ≡ text)
      × (s.acknowledged_at ≡ none)
unfolding upsert_sidenote find_in
upsert_sidenote-active fresh item_id vm_id text kind db =
    elim (Option-cases (find_in (names_item kind item_id) db.sidenotes)) [
      | inl e ↦ rw e (_, refl, ground (arith, erc_type_eq_refl kind), refl, refl, refl)
      | inr (s, e) ↦
          rw e
            (_, refl, find-update_note kind item_id vm_id text db.sidenotes s e, refl, refl, refl)
    ]
