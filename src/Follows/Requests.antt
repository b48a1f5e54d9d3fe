-- ===== src/Follows/Requests.antt =====
-- A server that serves the requests to follow one after the other.
use veervrat_app.Base.{
  ℕ, ◌≡◌, ◌≢◌, refl, sym, ap, ◌∙◌, subst, Bool, true, false, not, List, [], ◌∷◌, ◌==◌, arith, some,
  none, some_of,
}
use veervrat_app.Model.{
  User, SessionUser, UserFollow, Text, Db, ok, access_denied, bad_request, entity_not_found, Prisma,
  Service, require, modify, return, ◌>>=◌, ◌>>◌, Outcome, guard-Outcome, found-Outcome,
}
use veervrat_app.Model
use veervrat_app.Permissions.{platform, follow_create, follow_remove}
use veervrat_app.Permissions.Check.{has_permission}
use veervrat_app.Follows.{
  exists, follow, find_id_by_username, tell_followed, follow_target, follow_named, follow_user,
  unfollow_target, unfollow_named, unfollow_user,
}
use veervrat_app.Follows.Edges.{IsTidy, follow-IsTidy, unfollow-IsTidy}

pub data FollowRequest : Type 0 where
  to_follow to_unfollow : (username : Text) → FollowRequest

abbrev Kept : Db → Db → Type 0
Kept db db' = IsTidy db.follows → IsTidy db'.follows

Kept_refl : (db : Db) → Kept db db
Kept_refl db t = t

tell-follows :
    (already : Bool) (user : SessionUser) (id : ℕ) (db : Db)
    → (tell_followed already user id db).follows ≡ db.follows
tell-follows true user id db = refl
tell-follows false user id db = refl

module _ (prisma : Prisma) (lower : Text → Text) where
  abbrev pub serve : SessionUser → FollowRequest → Db → Db
  serve user (to_follow username) db = (follow_user prisma lower user username db).1
  serve user (to_unfollow username) db = (unfollow_user prisma lower user username db).1

  abbrev pub serve_all : List (SessionUser × FollowRequest) → Db → Db
  serve_all [] db = db
  serve_all ((user, r) ∷ calls) db = serve_all calls (serve user r db)

  serve-Kept : (user : SessionUser) (r : FollowRequest) (db : Db) → Kept db (serve user r db)
  unfolding follow_user unfollow_user
  serve-Kept user (to_follow username) db =
      guard-Outcome Kept Kept_refl db (has_permission user (platform none none) follow_create)
        access_denied (follow_named prisma lower user username)
        (λ _.
          found-Outcome Kept Kept_refl db (entity_not_found Model.user 0)
            (find_id_by_username prisma lower username db) (follow_target prisma lower user)
            (λ target f.
              guard-Outcome Kept Kept_refl db (not (target.id == user.id)) bad_request
                (modify (λ d.
                    tell_followed (exists user.id target.id db) user target.id
                      (follow user.id target.id d))
                  >> return true)
                (λ other t.
                  subst IsTidy
                    (sym (
                      tell-follows (exists user.id target.id db) user target.id
                        (follow user.id target.id db)))
                    (follow-IsTidy user.id target.id db (λ e. ground arith) t))))
  serve-Kept user (to_unfollow username) db =
      guard-Outcome Kept Kept_refl db (has_permission user (platform none none) follow_remove)
        access_denied (unfollow_named prisma lower user username)
        (λ _.
          found-Outcome Kept Kept_refl db (entity_not_found Model.user 0)
            (find_id_by_username prisma lower username db) (unfollow_target prisma lower user)
            (λ target f t. unfollow-IsTidy user.id target.id db t))

  -- After any run of requests to follow or to stop, by any users, answered or refused, from a table
  -- in which it held, every pair stands in the table at most once, and nobody follows themselves.
  pub serve_follows-IsTidy :
      (calls : List (SessionUser × FollowRequest)) (db : Db)
      → IsTidy db.follows
      → IsTidy (serve_all calls db).follows
  serve_follows-IsTidy [] db t = t
  serve_follows-IsTidy ((user, r) ∷ calls) db t =
      serve_follows-IsTidy calls (serve user r db) (serve-Kept user r db t)

  module _ (user : SessionUser) (username : Text) (target : User) where
    abbrev followed : Db → Db
    followed db =
        tell_followed (exists user.id target.id db) user target.id (follow user.id target.id db)

    follow_user-eq :
        (db : Db)
        → has_permission user (platform none none) follow_create ≡ true
        → find_id_by_username prisma lower username db ≡ some target
        → target.id ≢ user.id
        → follow_user prisma lower user username db ≡ (ok true, followed db)
    unfolding follow_user
    follow_user-eq db p f n = ground (arith, p, f, n)

    followed-users : (db : Db) → (followed db).users ≡ db.users
    unfolding follow exists
    followed-users db = ground arith

    followed-exists : (db : Db) → exists user.id target.id (followed db) ≡ true
    unfolding follow exists some_of
    followed-exists db = ground arith

    followed-known : (db : Db) → exists user.id target.id db ≡ true → followed db ≡ db
    unfolding follow exists
    followed-known db e = ground (arith, e)

    followed-find :
        (db : Db)
        → find_id_by_username prisma lower username db ≡ some target
        → find_id_by_username prisma lower username (followed db) ≡ some target
    unfolding find_id_by_username
    followed-find db f = rw (followed-users db, find_id_by_username) f

  -- A user who may follow, and whom the username does not name, follows the person it names, and
  -- that person is told exactly if the user did not follow already; the same request once more
  -- then changes nothing.
  pub follow_user-follows :
      (user : SessionUser) (username : Text) (target : User) (db : Db)
      → has_permission user (platform none none) follow_create ≡ true
      → find_id_by_username prisma lower username db ≡ some target
      → target.id ≢ user.id
      → let (answer, db') = follow_user prisma lower user username db in
        (answer ≡ ok true)
        × (exists user.id target.id db' ≡ true)
        × ((exists user.id target.id db ≡ true → db' ≡ db)
            × (exists user.id target.id db ≡ false
                → db' ≡ tell_followed false user target.id (follow user.id target.id db)))
        × (follow_user prisma lower user username db' ≡ (ok true, db'))
  follow_user-follows user username target db p f n =
      let after = followed user username target db in
      rw (follow_user-eq user username target db p f n) (
        refl,
        followed-exists user username target db,
        ((λ e. followed-known user username target db e), (λ e. rw e refl)),
        follow_user-eq user username target after p (followed-find user username target db f) n
            ∙ ap (λ d. (ok true, d))
                (followed-known user username target after
                  (followed-exists user username target db)),
      )
