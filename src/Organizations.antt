-- ===== src/Organizations.antt =====
-- apps/api/src/modules/organizations/organizations.service.ts: `assertAccess` and `addMember`.
pub mod Create
pub mod Founder
mod Examples
use eventory.Common.{
  ◌≡◌, inl, inr, Bool, true, false, ◌&&◌, not, none, some, List, [], ◌∷◌, arith, if◌then◌else◌,
  ◌==◌, nat_eq, Bool-cases, Option-cases, is_some, length, any, Text, text_eq, find_by,
}
use eventory.Errors.{
  Code, conflict, forbidden, not_found, Result, ok, err, ◌>>=◌, ◌>>◌, throw_if, or_throw,
}
use eventory.Domain.{UserRole, OrganizationMemberRole, is_admin}

pub record User : Type 0 where
  pub id : Text
  pub role : UserRole

pub record Member : Type 0 where
  pub organization_id : Text
  pub user_id : Text
  pub role : OrganizationMemberRole

pub record Directory : Type 0 where
  pub users : List User
  pub members : List Member

abbrev pub same_role : OrganizationMemberRole → OrganizationMemberRole → Bool
same_role OrganizationMemberRole.owner OrganizationMemberRole.owner = true
same_role OrganizationMemberRole.admin OrganizationMemberRole.admin = true
same_role OrganizationMemberRole.staff OrganizationMemberRole.staff = true
same_role _ _ = false

abbrev pub is_user : Text → User → Bool
is_user id u = u.id == id

-- `where: { organizationId_userId }`
abbrev pub is_member : Text → Text → Member → Bool
is_member organization_id user_id m = m.organization_id == organization_id && m.user_id == user_id

-- The roles that manage an event and scan its tickets.
abbrev pub managers : List OrganizationMemberRole
managers =
    OrganizationMemberRole.owner ∷ OrganizationMemberRole.admin ∷ OrganizationMemberRole.staff ∷ []

-- `assertAccess`; `roles` is `[]` where the call gives none.
unfoldable pub assert_access :
    Directory → Text → Text → List OrganizationMemberRole → Result (Unit {0})
assert_access directory organization_id user_id roles =
    if elim (find_by (is_user user_id) directory.users) [
      | none ↦ false
      | some user ↦ is_admin user.role
    ]
    then ok tt
    else elim (find_by (is_member organization_id user_id) directory.members) [
      | none ↦ err (forbidden Code.organization_access_denied)
      | some m ↦
          throw_if (not (length roles == 0) && not (any (same_role m.role) roles))
            (forbidden Code.organization_access_denied)
    ]

-- `addMember`, up to the audit record. The unique index on the two columns refuses a member that
-- is there.
unfoldable pub add_member : Text → Text → OrganizationMemberRole → Directory → Result Directory
add_member organization_id user_id role directory = do
  _ ← or_throw (find_by (is_user user_id) directory.users) (not_found Code.user_not_found)
  throw_if (is_some (find_by (is_member organization_id user_id) directory.members))
      (conflict Code.organization_member_exists)
  ok (record directory {
    members =
        record { organization_id = organization_id; user_id = user_id; role = role }
        ∷ directory.members;
  })

-- Why a user may act for an organisation.
pub data Granted (directory : Directory) (organization_id user_id : Text) : Type 0 where
  by_admin :
      (u : User)
      → find_by (is_user user_id) directory.users ≡ some u
      → is_admin u.role ≡ true
      → Granted directory organization_id user_id
  by_membership :
      (m : Member)
      → find_by (is_member organization_id user_id) directory.members ≡ some m
      → Granted directory organization_id user_id

-- If `assertAccess` lets a user pass, then the user is an administrator of the platform or a member of
-- the organisation.
pub assert_access-Granted :
    (directory : Directory) (organization_id user_id : Text) (roles : List OrganizationMemberRole)
    → assert_access directory organization_id user_id roles ≡ ok tt
    → Granted directory organization_id user_id
unfolding assert_access
assert_access-Granted directory organization_id user_id roles e =
    let by_member =
      λ (h : is_some (find_by (is_member organization_id user_id) directory.members) ≡ true).
        elim (Option-cases (find_by (is_member organization_id user_id) directory.members))
          as (λ _. Granted directory organization_id user_id) [
            | inl lost ↦ absurd (ground arith)
            | inr (m, found) ↦ by_membership m found
          ] in
    elim (Option-cases (find_by (is_user user_id) directory.users)) [
      | inl lost ↦ by_member (ground arith)
      | inr (u, found) ↦ elim (Bool-cases (is_admin u.role)) [
        | inl admin ↦ by_admin u found admin
        | inr other ↦ by_member (ground arith)
      ]
    ]
