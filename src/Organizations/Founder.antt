-- ===== src/Organizations/Founder.antt =====
-- What `create` of apps/api/src/modules/organizations/organizations.service.ts gives its owner.
use mathlib.Core.Option
use eventory.Common.{
  ◌≡◌, refl, sym, ap, ◌∙◌, subst, ◌⊎◌, inl, inr, true, false, some, List, ◌∷◌, ◌==◌, nat_eq,
  Bool-cases, Option-cases, length, any, Text, text_eq, text_beq_refl, is_empty, trim, find_by,
  find_by-update_where,
}
use eventory.Errors.{ok, ok_eq}
use eventory.Domain.{OrganizationMemberRole}
use eventory.Slug.{slug_of, IsSlug, slug_of-IsSlug}
use eventory.Organizations.{User, same_role, is_user, is_member, assert_access}
use eventory.Organizations.Create.{
  as_organizer, Organization, OrganizationDb, NewOrganization, is_founded, founded, slugify, create,
  get_for_member,
}

-- The owner of an organisation may act for it in every role that its owner may, and reads it.
founded-access :
    (created : Organization) (db : OrganizationDb) (roles : List OrganizationMemberRole) {u : User}
    → find_by (is_user created.owner_id) db.directory.users ≡ some u
    → (length roles ≡ 0) ⊎ (any (same_role OrganizationMemberRole.owner) roles ≡ true)
    → assert_access (founded created db).directory created.id created.owner_id roles ≡ ok tt
unfolding assert_access founded find_by
founded-access created db roles {u} found allowed =
    let users = (founded created db).directory.users in
    let still : find_by (is_user created.owner_id) users ≡ some (as_organizer u) =
      find_by-update_where (is_user created.owner_id) as_organizer db.directory.users (λ v. refl)
      ∙ ap (Option.map as_organizer) found in
    elim allowed [
      | inl no_roles ↦
          rw (still, text_beq_refl created.id, text_beq_refl created.owner_id, no_roles) refl
      | inr one ↦
          rw (still, text_beq_refl created.id, text_beq_refl created.owner_id, one)
            (elim (Bool-cases (length roles == 0)) [ inl t ↦ rw t refl | inr f ↦ rw f refl ])
    ]

-- The owner reads the organisation, as its owner.
founded-read :
    (created : Organization) (db : OrganizationDb)
    → get_for_member created.id created.owner_id (founded created db)
      ≡ ok (record {
        id = created.id;
        name = created.name;
        slug = created.slug;
        membership = OrganizationMemberRole.owner;
      })
unfolding get_for_member founded find_by
founded-read created db =
    rw
      (
        get_for_member,
        founded,
        find_by,
        text_beq_refl created.id,
        text_beq_refl created.owner_id,
        text_beq_refl created.id,
        text_beq_refl created.owner_id,
      )
      refl

-- What a success of `create` tells.
create-founded :
    (decompose to_lower_case : Text → Text) (id : Text) (input : NewOrganization)
    (db after : OrganizationDb) (created : Organization)
    → create decompose to_lower_case id input db ≡ ok (created, after)
    → (created ≡ record {
      id = id;
      name = trim input.name;
      slug = slug_of decompose to_lower_case 180 (trim input.name);
      owner_id = input.owner_id;
    })
      × (after ≡ founded created db)
      × (is_empty created.slug ≡ false)
      × (any (is_founded id created.slug) db.organizations ≡ false)
      × ((u : User) × (find_by (is_user input.owner_id) db.directory.users ≡ some u))
unfolding create slugify
create-founded decompose to_lower_case id input db after created e =
    let slug = slug_of decompose to_lower_case 180 (trim input.name) in
    let row : Organization = record {
      id = id;
      name = trim input.name;
      slug = slug;
      owner_id = input.owner_id;
    } in
    elim (Bool-cases (is_empty slug)) [
      | inl empty ↦ absurd (cc (rw (create, slugify, empty) at e))
      | inr given ↦ elim (Bool-cases (any (is_founded id slug) db.organizations)) [
        | inl taken ↦ absurd (cc (rw (create, slugify, given, taken) at e))
        | inr free ↦ elim (Bool-cases (any (is_member id input.owner_id) db.directory.members)) [
          | inl member ↦ absurd (cc (rw (create, slugify, given, free, member) at e))
          | inr new ↦ elim (Option-cases (find_by (is_user input.owner_id) db.directory.users)) [
            | inl lost ↦ absurd (cc (rw (create, slugify, given, free, new, lost) at e))
            | inr (u, found) ↦
                let both = ok_eq (rw (create, slugify, given, free, new, found) at e) in
                subst
                  (λ (p : Organization × OrganizationDb).
                    (p.0 ≡ row)
                    × (p.1 ≡ founded p.0 db)
                    × (is_empty p.0.slug ≡ false)
                    × (any (is_founded id p.0.slug) db.organizations ≡ false)
                    × ((v : User) × (find_by (is_user input.owner_id) db.directory.users ≡ some v)))
                  both (refl, refl, given, free, (u, found))
          ]
        ]
      ]
    ]

-- If `create` succeeds, then the owner passes `assertAccess` for the organisation wherever no roles are
-- asked for or the owner's is among them, and reads it with the role `OWNER`; it has
-- the drawn identifier and the name without the white space around it; its slug has no more than
-- 180 units, which are letters, digits and single dashes, of which there is one at least and a dash is
-- not the first; no organisation had the identifier or the slug before, and no other is added or
-- changed.
pub create-owner :
    (decompose to_lower_case : Text → Text) (id : Text) (input : NewOrganization)
    (db after : OrganizationDb) (created : Organization) (roles : List OrganizationMemberRole)
    → create decompose to_lower_case id input db ≡ ok (created, after)
    → (length roles ≡ 0) ⊎ (any (same_role OrganizationMemberRole.owner) roles ≡ true)
    → (assert_access after.directory created.id input.owner_id roles ≡ ok tt)
      × (get_for_member created.id input.owner_id after
          ≡ ok (record {
            id = created.id;
            name = created.name;
            slug = created.slug;
            membership = OrganizationMemberRole.owner;
          }))
      × (created.id ≡ id)
      × (created.name ≡ trim input.name)
      × IsSlug 180 created.slug
      × (is_empty created.slug ≡ false)
      × (any (is_founded id created.slug) db.organizations ≡ false)
      × (after.organizations ≡ created ∷ db.organizations)
unfolding founded
create-owner decompose to_lower_case id input db after created roles e allowed =
    let (row, state, given, free, (u, found)) =
      create-founded decompose to_lower_case id input db after created e in
    let owner : input.owner_id ≡ created.owner_id = sym (ap (λ o. o.owner_id) row) in
    (
      rw (state, owner)
          (founded-access created db roles
            (subst (λ o. find_by (is_user o) db.directory.users ≡ some u) owner found) allowed),
      rw (state, owner) (founded-read created db),
      ap (λ o. o.id) row,
      ap (λ o. o.name) row,
      rw (ap (λ o. o.slug) row) (slug_of-IsSlug decompose to_lower_case 180 (trim input.name)),
      given,
      free,
      ap (λ d. d.organizations) state,
    )
