-- ===== src/Auth/SessionRows.antt =====
-- The sessions of auth.repository.ts.
use veervrat_app.Base.{
  ℕ, Bool, false, ◌&&◌, not, Option, none, some, ◌∷◌, ◌==◌, leb, some_of, filter_by, find_in,
  count_of, ltb, update_one, update_where, if◌then◌else◌,
}
use veervrat_app.Model.{Session, Db, Service, throw, return, record_not_found, unique_violation}

unfoldable pub insert_session : Session → Service Session
insert_session row db =
    if some_of (λ s. s.token == row.token) db.sessions
    then throw unique_violation db
    else return row (record db { sessions = row ∷ db.sessions })

unfoldable pub find_session_by_token : ℕ → Db → Option Session
find_session_by_token token db = find_in (λ s. s.token == token) db.sessions

unfoldable pub delete_session : ℕ → Db → Db
delete_session token db = record db {
  sessions = filter_by (λ s. not (s.token == token)) db.sessions;
}

unfoldable pub delete_all_user_sessions : ℕ → Db → Db
delete_all_user_sessions user_id db = record db {
  sessions = filter_by (λ s. not (s.user_id == user_id)) db.sessions;
}

abbrev pub save_session_found : ℕ → (Session → Session) → Option Session → Service Session
save_session_found id change none db = throw record_not_found db
save_session_found id change (some s) db =
    return (change s) (record db { sessions = update_one (λ x. x.id == id) change db.sessions })

unfoldable pub save_session : ℕ → (Session → Session) → Service Session
save_session id change db = save_session_found id change (find_in (λ x. x.id == id) db.sessions) db

unfoldable pub mark_session_reauthenticated : (now id : ℕ) → Service Session
mark_session_reauthenticated now id =
    save_session id (λ s. record s { reauthenticated_at = some now })

unfoldable pub update_session_activity : (now id expires_at : ℕ) → Service Session
update_session_activity now id expires_at =
    save_session id (λ s. record s { last_active_at = now; expires_at = expires_at })

abbrev pub is_at_least : ℕ → Option ℕ → Bool
is_at_least not_before none = false
is_at_least not_before (some t) = leb not_before t

abbrev pub has_proof : (id not_before : ℕ) → Session → Bool
has_proof id not_before s = s.id == id && is_at_least not_before s.reauthenticated_at

unfoldable pub consume_session_reauthentication : (id not_before : ℕ) → Service Bool
consume_session_reauthentication id not_before db =
    return (ltb 0 (count_of (has_proof id not_before) db.sessions)) (record db {
      sessions =
          update_where (has_proof id not_before) (λ s. record s { reauthenticated_at = none })
            db.sessions;
    })
