-- ===== src/Organizations/Create.antt =====
-- apps/api/src/modules/organizations/organizations.service.ts: `create`, `getForMember` and
-- `listForUser`. `create` is one step with its audit record; `name_before` is the database's order on
-- names.
use mathlib.Core.Option
use eventory.Common.{
  Bool, ◌&&◌, ◌||◌, Option, none, some, List, [], ◌∷◌, ◌++◌, if◌then◌else◌, ◌==◌, nat_eq, is_some,
  any, Text, codes, text_eq, is_empty, trim, find_by, filter_by, update_where, order_by,
}
use eventory.Errors.{
  Code, conflict, forbidden, internal, Result, ok, err, ◌>>=◌, ◌>>◌, throw_if, or_throw,
}
use eventory.Domain.{UserRole, OrganizationMemberRole}
use eventory.Slug.{slug_of}
use eventory.Organizations.{Directory, is_user, is_member, User}

pub record Organization : Type 0 where
  pub id : Text
  pub name : Text
  pub slug : Text
  pub owner_id : Text

pub record OrganizationDb : Type 0 where
  pub directory : Directory
  pub organizations : List Organization
  -- The action, the organisation and the user of an audit record.
  pub audit_logs : List (Text × Text × Text)

pub record NewOrganization : Type 0 where
  pub name : Text
  pub owner_id : Text

-- What a member reads of an organisation. The owner's column is not shown.
pub record Membership : Type 0 where
  pub id : Text
  pub name : Text
  pub slug : Text
  pub membership : OrganizationMemberRole

-- A row that the unique indexes refuse.
abbrev pub is_founded : Text → Text → Organization → Bool
is_founded id slug organization = organization.id == id || organization.slug == slug

abbrev pub as_organizer : User → User
as_organizer u = record u { role = UserRole.organizer }

-- The writes of the transaction.
unfoldable pub founded : Organization → OrganizationDb → OrganizationDb
founded created db = record db {
  directory = record {
    users = update_where (is_user created.owner_id) as_organizer db.directory.users;
    members =
        record {
          organization_id = created.id;
          user_id = created.owner_id;
          role = OrganizationMemberRole.owner;
        }
        ∷ db.directory.members;
  };
  organizations = created ∷ db.organizations;
  audit_logs = (codes "ORGANIZATION_CREATED", created.id, created.owner_id) ∷ db.audit_logs;
}

module _ (decompose to_lower_case : Text → Text) where
  -- `slugify`
  unfoldable pub slugify : Text → Result Text
  slugify name =
      let slug = slug_of decompose to_lower_case 180 name in
      if is_empty slug then err (conflict Code.invalid_organization_name) else ok slug

  -- `create`, with the identifier that the database draws. The insertions fail where a row is taken,
  -- and where the owner does not exist.
  unfoldable pub create :
      Text → NewOrganization → OrganizationDb → Result (Organization × OrganizationDb)
  create id input db = do
    slug ← slugify (trim input.name)
    let created : Organization = record {
      id = id;
      name = trim input.name;
      slug = slug;
      owner_id = input.owner_id;
    }
    throw_if
        (any (is_founded id slug) db.organizations
          || any (is_member id input.owner_id) db.directory.members)
        (conflict Code.organization_slug_conflict)
    _ ← or_throw (find_by (is_user input.owner_id) db.directory.users) internal
    ok (created, founded created db)

-- The role of a user in an organisation, where there is one.
abbrev pub membership_of : Text → OrganizationDb → Organization → Option OrganizationMemberRole
membership_of user_id db organization =
    Option.map (λ m. m.role) (find_by (is_member organization.id user_id) db.directory.members)

-- One row of the answer of `listForUser`, or none.
abbrev pub member_view : Text → OrganizationDb → Organization → List Membership
member_view user_id db organization = elim (membership_of user_id db organization) [
  | none ↦ []
  | some membership ↦
      record {
        id = organization.id;
        name = organization.name;
        slug = organization.slug;
        membership = membership;
      }
      ∷ []
]

-- `getForMember`
unfoldable pub get_for_member : Text → Text → OrganizationDb → Result Membership
get_for_member organization_id user_id db =
    elim (find_by (λ o. o.id == organization_id && is_some (membership_of user_id db o))
      db.organizations) [
        | none ↦ err (forbidden Code.organization_access_denied)
        | some organization ↦ elim (member_view user_id db organization) [
          | [] ↦ err internal
          | view ∷ _ ↦ ok view
        ]
      ]

-- `flatMap`
unfoldable pub member_views : Text → OrganizationDb → List Organization → List Membership
member_views user_id db [] = []
member_views user_id db (o ∷ rest) = member_view user_id db o ++ member_views user_id db rest

-- `listForUser`
unfoldable pub list_for_user : (Text → Text → Bool) → Text → OrganizationDb → List Membership
list_for_user name_before user_id db = member_views user_id db (
    order_by (λ (x y : Organization). name_before x.name y.name)
      (filter_by (λ o. is_some (membership_of user_id db o)) db.organizations))
