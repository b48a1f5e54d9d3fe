-- ===== src/Auth/Consenting.antt =====
-- What a person has accepted.
use veervrat_app.Base.{
  ℕ, ◌≡◌, refl, ◌∙◌, ◌⊎◌, inl, inr, Bool, true, false, List, [], ◌∷◌, ◌==◌, some_of, filter_by, All,
  In, arith, Bool-cases,
}
use veervrat_app.Model.{PolicyVersion, UserConsent, Text, text_eq_refl, Db}
use veervrat_app.Auth.{
  Env, is_consent, contains_key, record_consent, find_consents, highest, is_below, is_outstanding,
  sort_keys, insert_key, outstanding_consents, current_policy_versions,
}
use veervrat_app.Auth.Operations.Onboarding.{
  outstanding_of, record_all, accept_outstanding_consents,
}

-- a consent of this version is among them
abbrev Has : ℕ → Text → ℕ → List UserConsent → Type 0
Has user_id key version rows = some_of (is_consent user_id key version) rows ≡ true

highest-covers :
    (user_id : ℕ) (key : Text) (version : ℕ) (rows : List UserConsent)
    → Has user_id key version rows
    → is_below (highest (filter_by (λ c. c.user_id == user_id) rows) key) version ≡ false
unfolding some_of filter_by highest
highest-covers user_id key version [] h = absurd (ground arith)
highest-covers user_id key version (c ∷ rows) h =
    ground (arith, highest-covers user_id key version rows, h)

keeps-Has :
    (user_id : ℕ) (key key' : Text) (version version' : ℕ) (db : Db)
    → Has user_id key version db.user_consents
    → Has user_id key version (record_consent user_id key' version' db).user_consents
unfolding record_consent some_of
keeps-Has user_id key key' version version' db h = ground (arith, h)

gives-Has :
    (user_id : ℕ) (key : Text) (version : ℕ) (db : Db)
    → Has user_id key version (record_consent user_id key version db).user_consents
unfolding record_consent some_of
gives-Has user_id key version db = ground (arith, text_eq_refl key)

all-keep :
    (user_id : ℕ) (key : Text) (version : ℕ) (ps : List PolicyVersion) (db : Db)
    → Has user_id key version db.user_consents
    → Has user_id key version (record_all user_id ps db).user_consents
unfolding record_all
all-keep user_id key version [] db h = h
all-keep user_id key version (p ∷ ps) db h =
    all-keep user_id key version ps (record_consent user_id p.document_key p.version db)
      (keeps-Has user_id key p.document_key version p.version db h)

all-give :
    (user_id : ℕ) (p : PolicyVersion) (ps : List PolicyVersion) (db : Db)
    → In p ps
    → Has user_id p.document_key p.version (record_all user_id ps db).user_consents
unfolding record_all
all-give user_id p [] db m = absurd m
all-give user_id p (q ∷ ps) db (inl e) = rw (← e) (
    all-keep user_id q.document_key q.version ps
      (record_consent user_id q.document_key q.version db)
      (gives-Has user_id q.document_key q.version db))
all-give user_id p (q ∷ ps) db (inr m) =
    all-give user_id p ps (record_consent user_id q.document_key q.version db) m

same-pages :
    (user_id : ℕ) (ps : List PolicyVersion) (db : Db)
    → (record_all user_id ps db).cms_pages ≡ db.cms_pages
unfolding record_all record_consent
same-pages user_id [] db = refl
same-pages user_id (p ∷ ps) db =
    same-pages user_id ps (record_consent user_id p.document_key p.version db) ∙ ground arith

In-insert_key :
    (le : Text → Text → Bool) (p q : PolicyVersion) (ps : List PolicyVersion)
    → (p ≡ q) ⊎ In q ps
    → In q (insert_key le p ps)
In-insert_key le p q [] h = h
In-insert_key le p q (r ∷ ps) h = ground (arith, In-insert_key le p q ps, h)

In-sort_keys :
    (le : Text → Text → Bool) (q : PolicyVersion) (ps : List PolicyVersion)
    → In q ps
    → In q (sort_keys le ps)
unfolding sort_keys
In-sort_keys le q [] m = m
In-sort_keys le q (p ∷ ps) (inl e) = In-insert_key le p q (sort_keys le ps) (inl e)
In-sort_keys le q (p ∷ ps) (inr m) =
    In-insert_key le p q (sort_keys le ps) (inr (In-sort_keys le q ps m))

In-filter_by :
    (p : PolicyVersion → Bool) (q : PolicyVersion) (ps : List PolicyVersion)
    → In q ps
    → p q ≡ true
    → In q (filter_by p ps)
unfolding filter_by
In-filter_by p q [] m t = absurd m
In-filter_by p q (r ∷ ps) (inl e) t = ground (arith, e, t)
In-filter_by p q (r ∷ ps) (inr m) t = ground (arith, In-filter_by p q ps m t)

none-left :
    (p : PolicyVersion → Bool) (le : Text → Text → Bool) (ps : List PolicyVersion)
    → All (λ q. p q ≡ false) ps
    → sort_keys le (filter_by p ps) ≡ []
unfolding filter_by sort_keys
none-left p le [] h = refl
none-left p le (q ∷ ps) h = ground (arith, none-left p le ps)

All-of :
    (P : PolicyVersion → Type 0) (ps : List PolicyVersion)
    → ((q : PolicyVersion) → In q ps → P q)
    → All P ps
All-of P [] f = tt
All-of P (q ∷ ps) f = (f q (inl refl), All-of P ps (λ r m. f r (inr m)))

keeps-covered :
    (user_id : ℕ) (key key' : Text) (version version' : ℕ) (db : Db)
    → is_below (highest (find_consents user_id db) key) version ≡ false
    → is_below
        (highest (find_consents user_id (record_consent user_id key' version' db)) key)
        version
      ≡ false
unfolding record_consent highest find_consents filter_by
keeps-covered user_id key key' version version' db h = ground (arith, h)

all-covered :
    (user_id : ℕ) (key : Text) (version : ℕ) (ps : List PolicyVersion) (db : Db)
    → is_below (highest (find_consents user_id db) key) version ≡ false
    → is_below (highest (find_consents user_id (record_all user_id ps db)) key) version ≡ false
unfolding record_all
all-covered user_id key version [] db h = h
all-covered user_id key version (p ∷ ps) db h =
    all-covered user_id key version ps (record_consent user_id p.document_key p.version db)
      (keeps-covered user_id key p.document_key version p.version db h)

-- Whoever accepts what is outstanding has nothing outstanding.
pub accept_outstanding_consents-outstanding_of :
    (env : Env) (keys : List Text) (user_id : ℕ) (db : Db)
    → let (answer, db') = accept_outstanding_consents env keys user_id db in
      outstanding_of env keys user_id db' ≡ []
unfolding accept_outstanding_consents outstanding_of outstanding_consents find_consents
    current_policy_versions
accept_outstanding_consents-outstanding_of env keys user_id db =
    let current = filter_by (λ p. contains_key keys p.document_key) db.cms_pages in
    let before = find_consents user_id db in
    let ps = sort_keys env.locale_le (filter_by (is_outstanding before) current) in
    let after = find_consents user_id (record_all user_id ps db) in
    rw (same-pages user_id ps db) (
      none-left (is_outstanding after) env.locale_le current (
        All-of (λ q. is_outstanding after q ≡ false) current
          (λ q m. elim (Bool-cases (is_outstanding before q)) [
            | inl t ↦
                highest-covers user_id q.document_key q.version
                  (record_all user_id ps db).user_consents
                  (all-give user_id q ps db (
                    In-sort_keys env.locale_le q (filter_by (is_outstanding before) current)
                      (In-filter_by (is_outstanding before) q current m t)))
            | inr f ↦ all-covered user_id q.document_key q.version ps db f
          ])))
