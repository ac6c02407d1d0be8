-- ===== src/Prelude/Text.antt =====
-- Texts (Go's `string`) and byte slices (`[]byte`): equality and hexadecimal encoding.
use Prim.Native.Nat.{ℕ, ◌/◌, ◌%◌}
use Prim.Native.Char.{Char, code}
use mathlib.Core.Path.{◌≡◌, refl}
use mathlib.Core.Bool.{Bool, true, false, ◌&&◌}
use mathlib.Core.Logic.{◌⊎◌, ◌≢◌, inl, inr}
use mathlib.Core.List.{List, [], ◌∷◌}
use native.Mathlib.Omega.{arith}
use sund.Prelude.Tests.{nat_eq, Bool-cases}
use sund.Prelude.Lists.{get_or}
pub use Prim.Native.String.{String}
pub use Prim.Native.String.{◌++◌ as ◌<>◌}
pub use text.Mathlib.Text.{◌==◌}
pub use text.Mathlib.TextEquality.{eq_iff}
pub use text.Mathlib.TextPositions.{eq_refl}

abbrev pub Bytes : Type 0
Bytes = List ℕ

-- `bytes.Equal`, and `==` on the encodings of byte slices.
unfoldable pub bytes_eq : Bytes → Bytes → Bool
bytes_eq [] [] = true
bytes_eq [] (y ∷ ys) = false
bytes_eq (x ∷ xs) [] = false
bytes_eq (x ∷ xs) (y ∷ ys) = nat_eq x y && bytes_eq xs ys

-- `[]byte(s)`, for a text of ASCII characters.
abbrev pub codes : String → Bytes
codes String.[] = []
codes (String.◌∷◌ c s) = code c ∷ codes s

abbrev pub digits : List Char
digits =
    "0" ∷ "1" ∷ "2" ∷ "3" ∷ "4" ∷ "5" ∷ "6" ∷ "7" ∷ "8" ∷ "9" ∷ "a" ∷ "b" ∷ "c" ∷ "d" ∷ "e" ∷ "f"
    ∷ []

-- `hex.EncodeToString`.
unfoldable pub hex : Bytes → String
hex [] = String.[]
hex (b ∷ bs) =
    String.◌∷◌ (get_or digits (b / 16) "0") (String.◌∷◌ (get_or digits (b % 16) "0") (hex bs))

hex_two : hex (0x0f ∷ 0xa0 ∷ []) ≡ "0fa0"
unfolding hex
hex_two = refl

module _ (a b : String) where
  -- A split on the equality of two texts.
  pub text_cases : ((a ≡ b) × ((a == b) ≡ true)) ⊎ ((a ≢ b) × ((a == b) ≡ false))
  text_cases = elim (Bool-cases (a == b)) [
    | inl e ↦ inl ((eq_iff a b).0 e, e)
    | inr e ↦ inr (λ p. cc ((eq_iff a b).1 p), e)
  ]

  pub ne→eq_false : a ≢ b → (a == b) ≡ false
  ne→eq_false h = ground (arith, eq_iff a b)
