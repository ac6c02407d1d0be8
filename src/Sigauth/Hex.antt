-- ===== src/Sigauth/Hex.antt =====
-- Texts cut at a separator, and hexadecimal digits.
use Prim.Native.Char.{Char, code}
use text.Mathlib.TextLemmas.{
  head-eq_of_cons-eq, tail-eq_of_cons-eq, nil-append, cons-append, nil≢cons, cons≢nil,
}
use sund.Prelude.{
  ℕ, zero, suc, ◌+◌, ◌/◌, ◌%◌, ◌<◌, ◌≡◌, ◌≢◌, refl, sym, ap, ◌∙◌, [], ◌∷◌, String, ◌<>◌, Bytes, hex,
  All, arith, ltb, if◌then◌else◌, get_or, digits,
}

-- The text has no character of the code `n`.
abbrev pub Avoids : ℕ → String → Type 0
Avoids n String.[] = Unit
Avoids n (String.◌∷◌ c s) = (code c ≢ n) × Avoids n s

-- Up to a separator that neither text holds, two texts that agree are the same.
cut :
    (c : Char) (a b : String) (x y : String)
    → Avoids (code c) a
    → Avoids (code c) b
    → a <> String.◌∷◌ c x ≡ b <> String.◌∷◌ c y
    → (a ≡ b) × (x ≡ y)
cut c String.[] String.[] x y h k e =
    (refl, tail-eq_of_cons-eq (sym (nil-append _) ∙ e ∙ nil-append _))
cut c String.[] (String.◌∷◌ d b) x y h k e =
    absurd (k.0 (ap code (sym (head-eq_of_cons-eq (sym (nil-append _) ∙ e ∙ cons-append d b _)))))
cut c (String.◌∷◌ d a) String.[] x y h k e =
    absurd (h.0 (ap code (head-eq_of_cons-eq (sym (cons-append d a _) ∙ e ∙ nil-append _))))
cut c (String.◌∷◌ d a) (String.◌∷◌ f b) x y h k e =
    let whole = sym (cons-append d a _) ∙ e ∙ cons-append f b _ in
    let (g, r) = cut c a b x y h.1 k.1 (tail-eq_of_cons-eq whole) in
    ((λ i. String.◌∷◌ (head-eq_of_cons-eq whole i) (g i)), r)

line_append : (x : String) → "\n" <> x ≡ String.◌∷◌ "\n" x
line_append x = cons-append "\n" String.[] x ∙ ap (String.◌∷◌ "\n") (nil-append x)

-- Up to a line feed that neither text holds, two texts that agree are the same.
pub cut_line :
    (a b : String) (x y : String)
    → Avoids 10 a
    → Avoids 10 b
    → a <> ("\n" <> x) ≡ b <> ("\n" <> y)
    → (a ≡ b) × (x ≡ y)
cut_line a b x y h k e =
    cut "\n" a b x y h k
      (ap (λ r. a <> r) (sym (line_append x)) ∙ e ∙ ap (λ r. b <> r) (line_append y))

-- The code of a hexadecimal digit.
digit_code : (n : ℕ) → n < 16 → code (get_or digits n "0") ≡ (if ltb n 10 then 48 + n else 87 + n)
digit_code zero h = refl
digit_code (suc zero) h = refl
digit_code (suc (suc zero)) h = refl
digit_code (suc (suc (suc zero))) h = refl
digit_code (suc (suc (suc (suc zero)))) h = refl
digit_code (suc (suc (suc (suc (suc zero))))) h = refl
digit_code (suc (suc (suc (suc (suc (suc zero)))))) h = refl
digit_code (suc (suc (suc (suc (suc (suc (suc zero))))))) h = refl
digit_code (suc (suc (suc (suc (suc (suc (suc (suc zero)))))))) h = refl
digit_code (suc (suc (suc (suc (suc (suc (suc (suc (suc zero))))))))) h = refl
digit_code (suc (suc (suc (suc (suc (suc (suc (suc (suc (suc zero)))))))))) h = refl
digit_code (suc (suc (suc (suc (suc (suc (suc (suc (suc (suc (suc zero))))))))))) h = refl
digit_code (suc (suc (suc (suc (suc (suc (suc (suc (suc (suc (suc (suc zero)))))))))))) h = refl
digit_code (suc (suc (suc (suc (suc (suc (suc (suc (suc (suc (suc (suc (suc zero))))))))))))) h =
    refl
digit_code (suc (suc (suc (suc (suc (suc (suc (suc (suc (suc (suc (suc (suc (suc zero))))))))))))))
      h =
    refl
digit_code
      (suc (suc (suc (suc (suc (suc (suc (suc (suc (suc (suc (suc (suc (suc (suc zero)))))))))))))))
      h =
    refl
digit_code
      (suc
        (suc (suc (suc (suc (suc (suc (suc (suc (suc (suc (suc (suc (suc (suc (suc n))))))))))))))))
      h =
    absurd (omega arith)

digit_injective : (m n : ℕ) → m < 16 → n < 16 → get_or digits m "0" ≡ get_or digits n "0" → m ≡ n
digit_injective m n h k e = ground (arith, digit_code m h, digit_code n k, ap code e)

pub hex_injective :
    (a b : Bytes) → All (λ n. n < 256) a → All (λ n. n < 256) b → hex a ≡ hex b → a ≡ b
unfolding hex
hex_injective [] [] h k e = refl
hex_injective [] (n ∷ b) h k e = absurd (nil≢cons e)
hex_injective (m ∷ a) [] h k e = absurd (cons≢nil e)
hex_injective (m ∷ a) (n ∷ b) h k e =
    same_byte
      (digit_injective (m / 16) (n / 16) (omega (arith, h.0)) (omega (arith, k.0))
        (head-eq_of_cons-eq e))
      (digit_injective (m % 16) (n % 16) (omega arith) (omega arith)
        (head-eq_of_cons-eq (tail-eq_of_cons-eq e)))
      (hex_injective a b h.1 k.1 (tail-eq_of_cons-eq (tail-eq_of_cons-eq e)))
  where
    same_byte : m / 16 ≡ n / 16 → m % 16 ≡ n % 16 → a ≡ b → ◌≡◌ {A = Bytes} (m ∷ a) (n ∷ b)
    same_byte high low rest = ap (λ x. x ∷ a) (omega arith) ∙ ap (λ r. n ∷ r) rest
