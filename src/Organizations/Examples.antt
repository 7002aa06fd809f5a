-- ===== src/Organizations/Examples.antt =====
-- A run of the creation of an organisation.
use eventory.Common.{
  ◌≡◌, refl, inr, false, [], ◌∷◌, nat_eq, any, codes, text_beq, text_eq, is_empty, trim, find_by,
  filter_by,
}
use eventory.Errors.{ok}
use eventory.Domain.{UserRole, OrganizationMemberRole}
use eventory.Slug.{IsSlug, slug_of, hyphenate, drop_first_dash, drop_last_dash}
use eventory.Organizations.{User, managers, assert_access}
use eventory.Organizations.Create.{
  Organization, OrganizationDb, NewOrganization, is_founded, founded, create, get_for_member,
  slugify,
}
use eventory.Organizations.Founder.{create-owner}

abbrev owner : User
owner = record { id = codes "u"; role = UserRole.attendee }

abbrev db : OrganizationDb
db = record {
  directory = record { users = owner ∷ []; members = [] };
  organizations = [];
  audit_logs = [];
}

abbrev input : NewOrganization
input = record { name = codes " rock & club! "; owner_id = codes "u" }

abbrev club : Organization
club = record {
  id = codes "o";
  name = codes "rock & club!";
  slug = codes "rock-club";
  owner_id = codes "u";
}

club_created : create (λ s. s) (λ s. s) (codes "o") input db ≡ ok (club, founded club db)
unfolding create slugify slug_of hyphenate drop_first_dash drop_last_dash trim filter_by find_by
    text_beq
club_created = refl

create-owner_example :
    (assert_access (founded club db).directory (codes "o") (codes "u") managers ≡ ok tt)
    × (get_for_member (codes "o") (codes "u") (founded club db)
        ≡ ok (record {
          id = codes "o";
          name = codes "rock & club!";
          slug = codes "rock-club";
          membership = OrganizationMemberRole.owner;
        }))
    × (club.id ≡ codes "o")
    × (club.name ≡ trim input.name)
    × IsSlug 180 club.slug
    × (is_empty club.slug ≡ false)
    × (any (is_founded (codes "o") club.slug) db.organizations ≡ false)
    × ((founded club db).organizations ≡ club ∷ db.organizations)
create-owner_example =
    create-owner (λ s. s) (λ s. s) (codes "o") input db (founded club db) club managers club_created
      (inr refl)
