-- ===== src/Follows.antt =====
-- apps/api/src/modules/follows: follows.repository.ts, then follows.service.ts, with the lookup of
-- apps/api/src/modules/users/users.repository.ts by a username.
pub mod Edges
pub mod Requests
pub mod Tests
use veervrat_app.Base.{
  ℕ, Bool, true, false, ◌&&◌, ◌||◌, not, Option, none, some, List, [], ◌∷◌, ◌==◌, is_some, some_of,
  filter_by, count_of, if◌then◌else◌,
}
use veervrat_app.Model.{
  User, UserFollow, SessionUser, Text, text_eq, new_follower, Db, Service, return, query, or_throw,
  require, modify, ◌>>=◌, ◌>>◌, access_denied, entity_not_found, bad_request, Prisma,
}
use veervrat_app.Model
use veervrat_app.Permissions.{platform, follow_create, follow_remove}
use veervrat_app.Permissions.Check.{has_permission}
use veervrat_app.Journeys.Operations.{notify}

abbrev pub is_edge : (follower_id followee_id : ℕ) → UserFollow → Bool
is_edge follower_id followee_id f = f.follower_id == follower_id && f.followee_id == followee_id

unfoldable pub exists : (follower_id followee_id : ℕ) → Db → Bool
exists follower_id followee_id db = some_of (is_edge follower_id followee_id) db.follows

-- `upsert` with nothing to update
unfoldable pub follow : (follower_id followee_id : ℕ) → Db → Db
follow follower_id followee_id db =
    if some_of (is_edge follower_id followee_id) db.follows then db else record db {
      follows = record { follower_id = follower_id; followee_id = followee_id } ∷ db.follows;
    }

unfoldable pub unfollow : (follower_id followee_id : ℕ) → Db → Db
unfollow follower_id followee_id db = record db {
  follows = filter_by (λ f. not (is_edge follower_id followee_id f)) db.follows;
}

unfoldable pub count_followers : ℕ → Db → ℕ
count_followers user_id db = count_of (λ f. f.followee_id == user_id) db.follows

unfoldable pub count_following : ℕ → Db → ℕ
count_following user_id db = count_of (λ f. f.follower_id == user_id) db.follows

unfoldable pub are_mutual_follows : (a b : ℕ) → Db → Bool
are_mutual_follows a b db = count_of (λ f. is_edge a b f || is_edge b a f) db.follows == 2

abbrev pub tell_followed : (already : Bool) → SessionUser → ℕ → Db → Db
tell_followed true user target_id db = db
tell_followed false user target_id db = notify target_id (some user.id) new_follower user.id db

-- the service, whose two answers are `following`
module _ (prisma : Prisma) (lower : Text → Text) where
  unfoldable pub find_id_by_username : Text → Db → Option User
  find_id_by_username username db =
      prisma.find_first (λ u. text_eq u.username (lower username) && not (is_some u.deleted_at))
        db.users

  abbrev pub follow_target : SessionUser → User → Service Bool
  follow_target user target db =
      (require (not (target.id == user.id)) bad_request
          >> (modify (λ d.
                tell_followed (exists user.id target.id db) user target.id
                  (follow user.id target.id d))
              >> return true))
        db

  abbrev pub follow_named : SessionUser → Text → Service Bool
  follow_named user username db =
      (or_throw (entity_not_found Model.user 0) (find_id_by_username username db)
          >>= follow_target user)
        db

  unfoldable pub follow_user : SessionUser → Text → Service Bool
  follow_user user username =
      require (has_permission user (platform none none) follow_create) access_denied
      >> follow_named user username

  abbrev pub unfollow_target : SessionUser → User → Service Bool
  unfollow_target user target = modify (unfollow user.id target.id) >> return false

  abbrev pub unfollow_named : SessionUser → Text → Service Bool
  unfollow_named user username db =
      (or_throw (entity_not_found Model.user 0) (find_id_by_username username db)
          >>= unfollow_target user)
        db

  unfoldable pub unfollow_user : SessionUser → Text → Service Bool
  unfollow_user user username =
      require (has_permission user (platform none none) follow_remove) access_denied
      >> unfollow_named user username

-- what a profile shows
unfoldable pub get_counts : ℕ → Db → ℕ × ℕ
get_counts user_id db = (count_followers user_id db, count_following user_id db)

unfoldable pub get_status : (viewer_id target_id : ℕ) → Db → Bool × Bool
get_status viewer_id target_id db = (exists viewer_id target_id db, exists target_id viewer_id db)
