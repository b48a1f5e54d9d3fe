-- ===== src/Permissions/Roles.antt =====
-- has-permission.ts: what a role adds. The comment above 'vm_invitation.accept' says that the
-- vratmitra role alone opens nothing.
use veervrat_app.Base.{◌≡◌, ◌≢◌, refl, true, false, ◌||◌, some, ◌∷◌, arith, some_of}
use veervrat_app.Model.{Role, role_eq, vratarthi, vratmitra, moderator, admin, SessionUser}
use veervrat_app.Permissions.{
  PermissionAction, PermissionResource, journey, erc, experience_log, test_attempt, vm_relationship,
  JourneySlim, has_role, is_va, is_active_journey_vm, is_global_vm_for_journey, is_room_participant,
}
use veervrat_app.Permissions.Check.{has_permission}

-- The user after a role was granted.
abbrev pub with_role : Role → SessionUser → SessionUser
with_role role u = record u { roles = role ∷ u.roles }

-- The user holds no active relationship to the journey as a vratmitra.
abbrev pub IsNoVmOf : SessionUser → JourneySlim → Type 0
IsNoVmOf u j = (is_active_journey_vm u j ≡ false) × (is_global_vm_for_journey u j ≡ false)

abbrev pub IsNoVmIn : SessionUser → PermissionResource → Type 0
IsNoVmIn u (journey j) = IsNoVmOf u j
IsNoVmIn u (erc j e) = IsNoVmOf u j
IsNoVmIn u (experience_log (some j) l f) = IsNoVmOf u j
IsNoVmIn u (test_attempt t (some j)) = IsNoVmOf u j
IsNoVmIn u (vm_relationship rel) = rel.vm_id ≢ u.id
IsNoVmIn u _ = Unit

has_role-with_role :
    (role r : Role) (u : SessionUser)
    → has_role (with_role role u) r ≡ role_eq role r || has_role u r
unfolding has_role some_of
has_role-with_role role r u = refl

-- What depends on the user's id alone is opened by this line.
same_user : Unit {0}
unfolding is_active_journey_vm is_global_vm_for_journey is_room_participant
same_user = tt

-- Granting a role takes no permission away.
pub has_permission_mono :
    (role : Role) (u : SessionUser) (r : PermissionResource) (a : PermissionAction)
    → has_permission u r a ≡ true
    → has_permission (with_role role u) r a ≡ true
unfolding same_user has_permission
has_permission_mono role u r a h = ground (
  arith,
  has_role-with_role role vratarthi u,
  has_role-with_role role vratmitra u,
  has_role-with_role role moderator u,
  has_role-with_role role admin u,
)

-- To a vratarthi who is no vratmitra of the resource at hand the vratmitra role opens and closes
-- nothing.
pub vratmitra_role_alone :
    (u : SessionUser) (r : PermissionResource) (a : PermissionAction)
    → is_va u ≡ true
    → IsNoVmIn u r
    → has_permission (with_role vratmitra u) r a ≡ has_permission u r a
unfolding same_user has_permission
vratmitra_role_alone u r a va n = ground (
  arith,
  has_role-with_role vratmitra vratarthi u,
  has_role-with_role vratmitra vratmitra u,
  has_role-with_role vratmitra moderator u,
  has_role-with_role vratmitra admin u,
)
