-- ===== src/Common/Texts.antt =====
-- Text as the list of its code units, and the operations on it that the program calls.
use Prim.Native.Nat.{ℕ}
use Prim.Native.Char.{code}
use Prim.Native.String.{String}
use mathlib.Core.Path.{◌≡◌, refl}
use mathlib.Core.Logic.{◌↔◌}
use mathlib.Core.Bool.{Bool, true, false, ◌&&◌, ◌||◌}
use mathlib.Core.List.{List, [], ◌∷◌, reverse}
use mathlib.Core.List.{reverse-reverse}
use Prim.Native.Nat.{◌≤◌}
use eventory.Common.Lists.{All, All-reverse}
use native.Mathlib.Omega.{arith}
use eventory.Common.Tests.{Eq, nat_beq, leb, if◌then◌else◌}

abbrev pub Text : Type 0
Text = List ℕ

-- The code units of a literal (all literals are ASCII).
abbrev pub codes : String → Text
codes String.[] = []
codes (String.◌∷◌ c s) = code c ∷ codes s

unfoldable pub text_beq : Text → Text → Bool
text_beq [] [] = true
text_beq [] (_ ∷ _) = false
text_beq (_ ∷ _) [] = false
text_beq (a ∷ s) (b ∷ t) = nat_beq a b && text_beq s t

pub text_beq_iff : (s t : Text) → (text_beq s t ≡ true) ↔ (s ≡ t)
unfolding text_beq
text_beq_iff [] [] = ground arith
text_beq_iff [] (b ∷ t) = ground arith
text_beq_iff (a ∷ s) [] = ground arith
text_beq_iff (a ∷ s) (b ∷ t) = ground (arith, text_beq_iff s t)

instance abbrev pub text_eq : Eq Text
text_eq = record { same = text_beq; same_iff = text_beq_iff }

pub text_beq_refl : (s : Text) → text_beq s s ≡ true
text_beq_refl s = (text_beq_iff s s).1 refl

abbrev pub is_empty : Text → Bool
is_empty [] = true
is_empty (_ ∷ _) = false

-- The white space and line ends that `String.prototype.trim` removes.
is_space : ℕ → Bool
is_space c =
    leb 9 c && leb c 13
    || (nat_beq c 32
        || (nat_beq c 160
            || (nat_beq c 0x1680
                || (leb 0x2000 c && leb c 0x200a
                    || (nat_beq c 0x2028
                        || (nat_beq c 0x2029
                            || (nat_beq c 0x202f
                                || (nat_beq c 0x205f
                                    || (nat_beq c 0x3000 || nat_beq c 0xfeff)))))))))

trim_start : Text → Text
trim_start [] = []
trim_start (c ∷ s) = if is_space c then trim_start s else c ∷ s

-- `s.trim()`
unfoldable pub trim : Text → Text
unfolding trim_start is_space
trim s = reverse (trim_start (reverse (trim_start s)))

-- A printable ASCII character is no white space.
abbrev pub IsPrintable : ℕ → Type 0
IsPrintable c = (33 ≤ c) × (c ≤ 126)

is_space-IsPrintable : (c : ℕ) → IsPrintable c → is_space c ≡ false
unfolding is_space
is_space-IsPrintable c h = ground arith

trim_start-All : (s : Text) → All IsPrintable s → trim_start s ≡ s
unfolding trim_start
trim_start-All [] h = refl
trim_start-All (c ∷ s) h = rw (is_space-IsPrintable c h.0)

-- Text without white space is its own trimming.
pub trim-All : (s : Text) → All IsPrintable s → trim s ≡ s
unfolding trim
trim-All s h =
    let back : trim_start (reverse s) ≡ reverse s =
      trim_start-All (reverse s) (All-reverse _ s h) in
    rw (trim_start-All s h, back, reverse-reverse)
