-- ===== src/Seating/Scripts.antt =====
-- What the three scripts of seat-hold.constants.ts do to the store.
use eventory.Common.{
  ℕ, ◌+◌, ◌≤◌, ◌≡◌, refl, ◌⊎◌, inl, inr, Bool, true, false, none, some, List, [], ◌∷◌, arith, ltb,
  if◌then◌else◌, ◌==◌, nat_eq, Bool-cases, Option-cases, is_some, any, All, includes, Text,
  text_beq_iff, text_eq,
}
use eventory.Seating.Redis.{Redis, Stored}
use eventory.Seating.Holds.{
  done, nothing, owns, set_all, delete_all, acquire_script, release_check, renew_check,
}

module _ (r : Redis) where
  open r use {Store, get, set, delete, get-set, get-delete}

  pub get-set_all :
      (now ttl t : ℕ) (v : Stored) (ks : List Text) (j : Text) (s : Store)
      → now ≤ t
      → get t j (set_all r now ttl v ks s)
        ≡ (if includes ks j then if ltb t (now + ttl) then some v else none else get t j s)
  unfolding set_all includes
  get-set_all now ttl t v [] j s h = refl
  get-set_all now ttl t v (k ∷ ks) j s h =
      ground
        (arith, get-set_all now ttl t v ks j (set now ttl k v s) h, get-set now ttl t k j v s h)

  pub get-delete_all :
      (t : ℕ) (ks : List Text) (j : Text) (s : Store)
      → get t j (delete_all r ks s) ≡ (if includes ks j then none else get t j s)
  unfolding delete_all includes
  get-delete_all t [] j s = refl
  get-delete_all t (k ∷ ks) j s =
      ground (arith, get-delete_all t ks j (delete k s), get-delete t k j s)

  -- A key that is held stops an acquisition of any list with it.
  pub any_held :
      (t : ℕ) (ks : List Text) (j : Text) (s : Store) (v : Stored)
      → includes ks j ≡ true
      → get t j s ≡ some v
      → any (λ k. is_some (get t k s)) ks ≡ true
  unfolding includes
  any_held t [] j s v i e = absurd (ground arith)
  any_held t (k ∷ ks) j s v i e = elim (Bool-cases (k == j)) [
    | inl same ↦ rw ((text_beq_iff k j).0 same, e)
    | inr other ↦ let rest = any_held t ks j s v (rw other at i) e in ground arith
  ]

  -- Acquisition is all or nothing: either some key is held and the store stays, or none is and
  -- each key, and no other, gets the value for `ttl`.
  pub acquire_script_cases :
      (now ttl : ℕ) (ks : List Text) (v : Stored) (s : Store)
      → ((any (λ k. is_some (get now k s)) ks ≡ true)
          × (acquire_script r now ks v ttl s ≡ (nothing, s)))
        ⊎ ((any (λ k. is_some (get now k s)) ks ≡ false)
            × (acquire_script r now ks v ttl s ≡ (done, set_all r now ttl v ks s)))
  unfolding acquire_script
  acquire_script_cases now ttl ks v s = elim (Bool-cases (any (λ k. is_some (get now k s)) ks)) [
    | inl e ↦ inl (e, rw (e, acquire_script))
    | inr e ↦ inr (e, rw (e, acquire_script))
  ]

  -- The release script's first loop goes through if every document it meets is the caller's.
  pub release_check_owned :
      (t : ℕ) (token user : Text) (s : Store) (found : Bool) (ks : List Text) (b : Bool)
      → release_check r t token user s found ks ≡ some b
      → All (λ k. (v : Stored) → get t k s ≡ some v → owns token user v ≡ true) ks
  unfolding release_check
  release_check_owned t token user s found [] b e = tt
  release_check_owned t token user s found (k ∷ ks) b e = elim (Option-cases (get t k s)) [
    | inl gone ↦ (
      λ v h. absurd (ground arith),
      release_check_owned t token user s found ks b (rw (gone, release_check) at e),
    )
    | inr (w, there) ↦ elim (Bool-cases (owns token user w)) [
      | inl mine ↦ (
        λ v h. ground arith,
        release_check_owned t token user s true ks b (rw (there, mine, release_check) at e),
      )
      | inr theirs ↦ absurd (ground arith)
    ]
  ]

  pub renew_check_owned :
      (t : ℕ) (token user : Text) (s : Store) (ks : List Text)
      → renew_check r t token user s ks ≡ done
      → All (λ k. (v : Stored) × (get t k s ≡ some v) × (owns token user v ≡ true)) ks
  unfolding renew_check
  renew_check_owned t token user s [] e = tt
  renew_check_owned t token user s (k ∷ ks) e = elim (Option-cases (get t k s)) [
    | inl gone ↦ absurd (ground arith)
    | inr (w, there) ↦ elim (Bool-cases (owns token user w)) [
      | inl mine ↦ (
        (w, there, mine),
        renew_check_owned t token user s ks (rw (there, mine, renew_check) at e),
      )
      | inr theirs ↦ absurd (ground arith)
    ]
  ]
