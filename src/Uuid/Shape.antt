-- ===== src/Uuid/Shape.antt =====
-- What a text that `isUuid` accepts looks like.
use eventory.Common.{
  ℕ, ◌≡◌, refl, ◌≢◌, Bool, true, List, [], ◌∷◌, arith, Text, All, length, ap, suc,
}
use eventory.Uuid.{is_hex, is_dash, is_version, is_variant, uuid_pattern, matches, is_uuid}

-- A place of the pattern that takes no colon.
abbrev NoColon : (ℕ → Bool) → Type 0
NoColon p = (c : ℕ) → p c ≡ true → c ≢ b':'

matches_shape :
    (ps : List (ℕ → Bool)) (s : Text)
    → All NoColon ps
    → matches ps s ≡ true
    → (length s ≡ length ps) × All (λ c. c ≢ b':') s
unfolding matches
matches_shape [] [] n h = (refl, tt)
matches_shape [] (c ∷ s) n h = absurd (ground arith)
matches_shape (p ∷ ps) [] n h = absurd (ground arith)
matches_shape (p ∷ ps) (c ∷ s) n h =
    let (len, rest) = matches_shape ps s n.1 (ground arith) in
    (ap suc len, (n.0 c (ground arith), rest))

hex_NoColon : NoColon is_hex
unfolding is_hex
hex_NoColon c h = ground arith

dash_NoColon : NoColon is_dash
unfolding is_dash
dash_NoColon c h = ground arith

version_NoColon : NoColon is_version
unfolding is_version
version_NoColon c h = ground arith

variant_NoColon : NoColon is_variant
unfolding is_variant
variant_NoColon c h = ground arith

pub uuid_shape : (s : Text) → is_uuid s ≡ true → (length s ≡ 36) × All (λ c. c ≢ b':') s
unfolding is_uuid
uuid_shape s h = matches_shape uuid_pattern s places h
  where
    places : All NoColon uuid_pattern
    places = search (hex_NoColon, dash_NoColon, version_NoColon, variant_NoColon, tt) depth 50
