-- ===== src/Follows/Tests.antt =====
-- Follows on a small database.
use veervrat_app.Base.{
  ◌≡◌, refl, true, false, none, List, [], ◌∷◌, some_of, filter_by, count_of, arith, ◌&&◌,
}
use veervrat_app.Model.{User, SessionUser, Text, text_eq, Db, err, bad_request, in_order}
use veervrat_app.Permissions.{has_role}
use veervrat_app.Permissions.Check.{has_permission}
use veervrat_app.Base.{find_in}
use veervrat_app.Journeys.Tests.{base, owner, mentor}
use veervrat_app.Follows.{
  exists, follow, unfollow, are_mutual_follows, find_id_by_username, follow_user, unfollow_user,
  get_status,
}
use veervrat_app.Follows.Edges.{IsTidy, are_mutual_follows-get_status}
use veervrat_app.Follows.Requests.{FollowRequest, to_follow, serve_all, serve_follows-IsTidy}

service : Unit {0}
unfolding has_role has_permission some_of find_in filter_by count_of exists follow unfollow
    are_mutual_follows find_id_by_username follow_user unfollow_user text_eq get_status
service = tt

abbrev lower : Text → Text
lower t = t

abbrev pub guide : User
guide = record {
  id = 2;
  email = 97 ∷ [];
  username = 98 ∷ [];
  created_at = 0;
  deleted_at = none;
  email_verified_at = none;
  suspended_at = none;
  pending_email = none;
  dob = none;
  account_setup_completed_at = none;
  onboarding_completed_at = none;
}

abbrev walker : User
walker = record guide { id = 1; username = 99 ∷ [] }

abbrev db : Db
db = record base { users = guide ∷ walker ∷ [] }

abbrev calls : List (SessionUser × FollowRequest)
calls = (owner, to_follow (98 ∷ [])) ∷ (mentor, to_follow (99 ∷ [])) ∷ []

service_tests :
    (are_mutual_follows 1 2 (serve_all in_order lower calls db) ≡ true)
    × ((follow_user in_order lower owner (99 ∷ []) db).0 ≡ err bad_request)
    × (are_mutual_follows 1 2
          (unfollow_user in_order lower owner (98 ∷ []) (serve_all in_order lower calls db)).1
        ≡ false)
unfolding service
service_tests = (refl, refl, refl)

serve_follows-IsTidy_example : IsTidy (serve_all in_order lower calls db).follows
serve_follows-IsTidy_example = serve_follows-IsTidy in_order lower calls db tt

abbrev friends : Db
friends = record base {
  follows =
      record { follower_id = 1; followee_id = 2 }
      ∷ record { follower_id = 2; followee_id = 1 }
      ∷ [];
}

are_mutual_follows-get_status_example :
    are_mutual_follows 1 2 friends ≡ (get_status 1 2 friends).0 && (get_status 1 2 friends).1
unfolding service
are_mutual_follows-get_status_example =
    are_mutual_follows-get_status 1 2 friends (ground arith, (refl, tt), (ground arith, tt, tt))
      (ground arith)
