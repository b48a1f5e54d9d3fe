-- ===== src/Auth/Signups.antt =====
-- The pending signups and consents of auth.repository.ts, and consent/outstanding-consents.ts.
use veervrat_app.Base.{
  ℕ, Bool, true, ◌&&◌, not, Option, none, some, List, [], ◌∷◌, ◌==◌, ltb, some_of, filter_by,
  find_in, delete_one, count_of, if◌then◌else◌,
}
use veervrat_app.Model.{
  PendingSignup, PolicyVersion, UserConsent, Text, text_eq, Db, Service, return,
}

unfoldable pub create_pending_signup :
    (fresh : ℕ) → Text → (dob : ℕ) → List PolicyVersion → (expires_at : ℕ) → Service PendingSignup
create_pending_signup fresh name dob consents expires_at db =
    let row : PendingSignup = record {
      id = fresh;
      username = name;
      dob = dob;
      consents = consents;
      expires_at = expires_at;
    } in
    return row (record db { pending_signups = row ∷ db.pending_signups })

abbrev pub consume_found : (now id : ℕ) → Option PendingSignup → Service (Option PendingSignup)
consume_found now id none db = return none db
consume_found now id (some p) db =
    return (if ltb p.expires_at now then none else some p)
      (record db { pending_signups = delete_one (λ x. x.id == id) db.pending_signups })

unfoldable pub consume_pending_signup : (now id : ℕ) → Service (Option PendingSignup)
consume_pending_signup now id db =
    consume_found now id (find_in (λ x. x.id == id) db.pending_signups) db

unfoldable pub delete_expired_pending_signups : (now : ℕ) → Service ℕ
delete_expired_pending_signups now db =
    return (count_of (λ p. ltb p.expires_at now) db.pending_signups) (record db {
      pending_signups = filter_by (λ p. not (ltb p.expires_at now)) db.pending_signups;
    })

abbrev pub contains_key : List Text → Text → Bool
contains_key keys key = some_of (λ k. text_eq k key) keys

unfoldable pub current_policy_versions : List Text → Db → List PolicyVersion
current_policy_versions keys db = filter_by (λ p. contains_key keys p.document_key) db.cms_pages

unfoldable pub find_consents : ℕ → Db → List UserConsent
find_consents user_id db = filter_by (λ c. c.user_id == user_id) db.user_consents

abbrev pub is_consent : ℕ → Text → ℕ → UserConsent → Bool
is_consent user_id key version c =
    c.user_id == user_id && text_eq c.document_key key && c.version == version

-- `upsert` with nothing to update
unfoldable pub record_consent : ℕ → Text → ℕ → Db → Db
record_consent user_id key version db =
    if some_of (is_consent user_id key version) db.user_consents then db else record db {
      user_consents =
          record { user_id = user_id; document_key = key; version = version } ∷ db.user_consents;
    }

-- consent/outstanding-consents.ts: the highest version of a document that was accepted
abbrev pub higher : Option ℕ → ℕ → Option ℕ
higher none version = some version
higher (some seen) version = if ltb seen version then some version else some seen

unfoldable pub highest : List UserConsent → Text → Option ℕ
highest [] key = none
highest (c ∷ accepted) key =
    let rest = highest accepted key in
    if text_eq c.document_key key then higher rest c.version else rest

-- `(highest.get(key) ?? -1) < version`
abbrev pub is_below : Option ℕ → ℕ → Bool
is_below none version = true
is_below (some seen) version = ltb seen version

abbrev pub is_outstanding : List UserConsent → PolicyVersion → Bool
is_outstanding accepted p = is_below (highest accepted p.document_key) p.version

abbrev pub insert_key :
    (Text → Text → Bool) → PolicyVersion → List PolicyVersion → List PolicyVersion
insert_key le p [] = p ∷ []
insert_key le p (q ∷ ps) =
    let rest = insert_key le p ps in
    if le p.document_key q.document_key then p ∷ q ∷ ps else q ∷ rest

-- `sort`, which keeps the order of equal keys
unfoldable pub sort_keys : (Text → Text → Bool) → List PolicyVersion → List PolicyVersion
sort_keys le [] = []
sort_keys le (p ∷ ps) = insert_key le p (sort_keys le ps)

unfoldable pub outstanding_consents :
    (locale_le : Text → Text → Bool) → List UserConsent → List PolicyVersion → List PolicyVersion
outstanding_consents locale_le accepted current =
    sort_keys locale_le (filter_by (is_outstanding accepted) current)
