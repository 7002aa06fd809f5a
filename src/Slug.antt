-- ===== src/Slug.antt =====
-- The slug of a name, as `slugify` of organizations/organizations.service.ts makes it. `decompose` is
-- `normalize('NFKD')`.
use eventory.Common.{
  ℕ, zero, suc, ◌≤◌, ◌≡◌, refl, ◌⊎◌, inl, inr, Bool, true, false, ◌&&◌, ◌||◌, not, [], ◌∷◌, arith,
  leb, nat_beq, if◌then◌else◌, nat_eq, Bool-cases, length, take, length-take, Text, text_eq,
  filter_by,
}

abbrev is_between : ℕ → ℕ → ℕ → Bool
is_between low high c = leb low c && leb c high

-- `[\u0300-\u036f]`
abbrev pub is_mark : ℕ → Bool
is_mark = is_between 768 879

-- `[a-z0-9]`
abbrev pub is_slug_unit : ℕ → Bool
is_slug_unit c = is_between 97 122 c || is_between 48 57 c

abbrev pub starts_with_dash : Text → Bool
starts_with_dash [] = false
starts_with_dash (c ∷ _) = nat_beq c 45

-- `.replace(/[^a-z0-9]+/g, '-')`: what follows a unit that is replaced starts with a dash only where
-- the run goes on.
unfoldable pub hyphenate : Text → Text
hyphenate [] = []
hyphenate (c ∷ s) =
    let rest = hyphenate s in
    if is_slug_unit c then c ∷ rest else (if starts_with_dash rest then rest else 45 ∷ rest)

-- `.replace(/^-|-$/g, '')`
unfoldable pub drop_first_dash : Text → Text
drop_first_dash [] = []
drop_first_dash (c ∷ s) = if nat_beq c 45 then s else c ∷ s

unfoldable pub drop_last_dash : Text → Text
drop_last_dash [] = []
drop_last_dash (c ∷ []) = if nat_beq c 45 then [] else c ∷ []
drop_last_dash (c ∷ d ∷ s) = c ∷ drop_last_dash (d ∷ s)

-- The slug before the test that it is not empty, with the limit of `slice`.
unfoldable pub slug_of : (Text → Text) → (Text → Text) → ℕ → Text → Text
slug_of decompose to_lower_case limit name =
    let letters = filter_by (λ c. not (is_mark c)) (decompose name) in
    take limit (drop_last_dash (drop_first_dash (hyphenate (to_lower_case letters))))

-- Each unit is a letter or a digit, or a dash that no dash follows.
unfoldable pub IsHyphenated : Text → Type 0
IsHyphenated [] = Unit
IsHyphenated (c ∷ s) =
    ((is_slug_unit c ≡ true) ⊎ ((c ≡ 45) × (starts_with_dash s ≡ false))) × IsHyphenated s

unfoldable pub IsSlug : ℕ → Text → Type 0
IsSlug limit s = IsHyphenated s × (starts_with_dash s ≡ false) × (length s ≤ limit)

hyphenate-IsHyphenated : (s : Text) → IsHyphenated (hyphenate s)
unfolding hyphenate IsHyphenated
hyphenate-IsHyphenated [] = tt
hyphenate-IsHyphenated (c ∷ s) = elim (Bool-cases (is_slug_unit c)) [
  | inl unit ↦ rw unit (inl unit, hyphenate-IsHyphenated s)
  | inr other ↦ elim (Bool-cases (starts_with_dash (hyphenate s))) [
    | inl dash ↦ rw (other, dash) (hyphenate-IsHyphenated s)
    | inr unit ↦ rw (other, unit) (inr (refl, unit), hyphenate-IsHyphenated s)
  ]
]

-- A unit of a slug is no dash.
starts_with_dash-unit : (c : ℕ) → is_slug_unit c ≡ true → nat_beq c 45 ≡ false
starts_with_dash-unit c h = elim (Bool-cases (nat_beq c 45)) [
  | inl dash ↦ absurd (ground arith)
  | inr other ↦ other
]

drop_first_dash-IsHyphenated :
    (s : Text)
    → IsHyphenated s
    → IsHyphenated (drop_first_dash s) × (starts_with_dash (drop_first_dash s) ≡ false)
unfolding drop_first_dash IsHyphenated
drop_first_dash-IsHyphenated [] h = (tt, refl)
drop_first_dash-IsHyphenated (c ∷ s) (inl unit, h) =
    let other = starts_with_dash-unit c unit in rw (other, other) ((inl unit, h), refl)
drop_first_dash-IsHyphenated (c ∷ s) (inr (dash, last), h) = rw dash (h, last)

starts_with_dash-drop_last_dash :
    (s : Text) → starts_with_dash s ≡ false → starts_with_dash (drop_last_dash s) ≡ false
unfolding drop_last_dash
starts_with_dash-drop_last_dash [] h = refl
starts_with_dash-drop_last_dash (c ∷ []) h = rw h h
starts_with_dash-drop_last_dash (c ∷ d ∷ s) h = h

drop_last_dash-IsHyphenated : (s : Text) → IsHyphenated s → IsHyphenated (drop_last_dash s)
unfolding drop_last_dash IsHyphenated
drop_last_dash-IsHyphenated [] h = tt
drop_last_dash-IsHyphenated (c ∷ []) (inl unit, h) =
    rw (starts_with_dash-unit c unit) (inl unit, tt)
drop_last_dash-IsHyphenated (c ∷ []) (inr (dash, last), h) = rw dash tt
drop_last_dash-IsHyphenated (c ∷ d ∷ s) (inl unit, h) =
    (inl unit, drop_last_dash-IsHyphenated (d ∷ s) h)
drop_last_dash-IsHyphenated (c ∷ d ∷ s) (inr (dash, last), h) = (
  inr (dash, starts_with_dash-drop_last_dash (d ∷ s) last),
  drop_last_dash-IsHyphenated (d ∷ s) h,
)

starts_with_dash-take :
    (n : ℕ) (s : Text) → starts_with_dash s ≡ false → starts_with_dash (take n s) ≡ false
starts_with_dash-take zero s h = refl
starts_with_dash-take (suc n) [] h = refl
starts_with_dash-take (suc n) (c ∷ s) h = h

take-IsHyphenated : (n : ℕ) (s : Text) → IsHyphenated s → IsHyphenated (take n s)
unfolding IsHyphenated
take-IsHyphenated zero s h = tt
take-IsHyphenated (suc n) [] h = tt
take-IsHyphenated (suc n) (c ∷ s) (inl unit, h) = (inl unit, take-IsHyphenated n s h)
take-IsHyphenated (suc n) (c ∷ s) (inr (dash, last), h) =
    (inr (dash, starts_with_dash-take n s last), take-IsHyphenated n s h)

-- Whatever the name, its slug has letters, digits and single dashes, does not start with a dash and is
-- no longer than the limit.
pub slug_of-IsSlug :
    (decompose to_lower_case : Text → Text) (limit : ℕ) (name : Text)
    → IsSlug limit (slug_of decompose to_lower_case limit name)
unfolding slug_of IsSlug
slug_of-IsSlug decompose to_lower_case limit name =
    let letters = filter_by (λ c. not (is_mark c)) (decompose name) in
    let (shape, first) =
      drop_first_dash-IsHyphenated _ (hyphenate-IsHyphenated (to_lower_case letters)) in
    let slug = drop_last_dash (drop_first_dash (hyphenate (to_lower_case letters))) in
    (
      take-IsHyphenated limit slug (drop_last_dash-IsHyphenated _ shape),
      starts_with_dash-take limit slug (starts_with_dash-drop_last_dash _ first),
      rw (length-take limit slug) (omega arith),
    )
