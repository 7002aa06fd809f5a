-- ===== src/Security/Authorized.antt =====
-- Whom the guards of an organisation's route let pass.
use eventory.Common.{
  ◌≡◌, true, ◌||◌, Option, some, List, ◌==◌, nat_eq, length, any, Text, text_eq, find_by,
}
use eventory.Domain.{OrganizationMemberRole, is_admin}
use eventory.Organizations.{Member, is_member, same_role}
use eventory.Security.Request.{Request}
use eventory.Security.Guards.{Account, AuthenticatedUser, is_account, is_active, user_of}

-- The user is an account that is active now.
record IsAuthenticated (accounts : List Account) (user : AuthenticatedUser) : Type 0 where
  pub account : Account
  pub found : find_by (is_account account.id) accounts ≡ some account
  pub active : is_active account.status ≡ true
  pub shown : user ≡ user_of account

-- Why a user may act for the organisation that a route names.
pub data Permitted (roles : List OrganizationMemberRole) (members : List Member)
    (organization_id : Option Text) (a : Account) : Type 0 where
  administrator : is_admin a.role ≡ true → Permitted roles members organization_id a
  member :
      (id : Text) (m : Member)
      → organization_id ≡ some id
      → find_by (is_member id a.id) members ≡ some m
      → length roles == 0 || any (same_role m.role) roles ≡ true
      → Permitted roles members organization_id a
