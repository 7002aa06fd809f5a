-- ===== src/Uuid.antt =====
-- The identifier check `isUuid`, which seating.service.ts, seating.gateway.ts, events.service.ts and
-- organization-member.guard.ts each write out as the same regular expression.
pub mod Shape
use eventory.Common.{ℕ, Bool, true, false, ◌&&◌, ◌||◌, List, [], ◌∷◌, ◌++◌, Text, leb, nat_beq}

-- [0-9a-f] under the flag `i`
is_hex : ℕ → Bool
is_hex c = leb b'0' c && leb c b'9' || (leb b'a' c && leb c b'f' || leb b'A' c && leb c b'F')

is_dash : ℕ → Bool
is_dash c = nat_beq c b'-'

-- [1-5]
is_version : ℕ → Bool
is_version c = leb b'1' c && leb c b'5'

-- [89ab] under the flag `i`
is_variant : ℕ → Bool
is_variant c = leb b'8' c && leb c b'9' || (leb b'a' c && leb c b'b' || leb b'A' c && leb c b'B')

abbrev hex4 : List (ℕ → Bool)
hex4 = is_hex ∷ is_hex ∷ is_hex ∷ is_hex ∷ []

abbrev uuid_pattern : List (ℕ → Bool)
uuid_pattern =
    hex4
    ++ (hex4
        ++ (is_dash
            ∷ (hex4
                ++ (is_dash
                    ∷ is_version
                    ∷ is_hex
                    ∷ is_hex
                    ∷ is_hex
                    ∷ is_dash
                    ∷ is_variant
                    ∷ is_hex
                    ∷ is_hex
                    ∷ is_hex
                    ∷ is_dash
                    ∷ (hex4 ++ (hex4 ++ hex4))))))

-- One test for each place, and nothing beyond them.
matches : List (ℕ → Bool) → Text → Bool
matches [] [] = true
matches [] (_ ∷ _) = false
matches (_ ∷ _) [] = false
matches (p ∷ ps) (c ∷ s) = p c && matches ps s

unfoldable pub is_uuid : Text → Bool
unfolding matches is_hex is_dash is_version is_variant
is_uuid s = matches uuid_pattern s
