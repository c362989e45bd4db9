-- ===== src/Text/Decimal.antt =====
-- `str(n)` for a natural number n, and the value of ASCII digits.
use Prim.Native.String.{[], ◌∷◌}
use agent_runtime_observator.Prelude.{
  ℕ, zero, suc, ◌+◌, ◌*◌, ◌-◌, ◌/◌, ◌%◌, ◌<◌, ◌≡◌, refl, sym, ap, ◌∙◌, inl, inr, Char, code, String,
  arith, ltb, leb, Bool, true, ◌&&◌, Bool-cases, if◌then◌else◌,
}

digit_char : ℕ → Char
digit_char zero = "0"
digit_char (suc zero) = "1"
digit_char (suc (suc zero)) = "2"
digit_char (suc (suc (suc zero))) = "3"
digit_char (suc (suc (suc (suc zero)))) = "4"
digit_char (suc (suc (suc (suc (suc zero))))) = "5"
digit_char (suc (suc (suc (suc (suc (suc zero)))))) = "6"
digit_char (suc (suc (suc (suc (suc (suc (suc zero))))))) = "7"
digit_char (suc (suc (suc (suc (suc (suc (suc (suc zero)))))))) = "8"
digit_char (suc (suc (suc (suc (suc (suc (suc (suc (suc _))))))))) = "9"

-- The digits of n in front of a text; n + 1 rounds are enough.
digits : ℕ → ℕ → String → String
digits zero n s = s
digits (suc f) n s =
    let more = digits f (n / 10) (digit_char (n % 10) ∷ s) in
    if ltb n 10 then digit_char (n % 10) ∷ s else more

unfoldable pub show_nat : ℕ → String
unfolding digits digit_char
show_nat n = digits (suc n) n []

show_2047 : show_nat 2047 ≡ "2047"
unfolding show_nat
show_2047 = refl

-- The number that ASCII digits stand for, read from the left.
value_from : ℕ → String → ℕ
value_from acc [] = acc
value_from acc (c ∷ s) = value_from (acc * 10 + (code c - 48)) s

digit_code : (k : ℕ) → k < 10 → code (digit_char k) - 48 ≡ k
unfolding digit_char
digit_code zero h = refl
digit_code (suc zero) h = refl
digit_code (suc (suc zero)) h = refl
digit_code (suc (suc (suc zero))) h = refl
digit_code (suc (suc (suc (suc zero)))) h = refl
digit_code (suc (suc (suc (suc (suc zero))))) h = refl
digit_code (suc (suc (suc (suc (suc (suc zero)))))) h = refl
digit_code (suc (suc (suc (suc (suc (suc (suc zero))))))) h = refl
digit_code (suc (suc (suc (suc (suc (suc (suc (suc zero)))))))) h = refl
digit_code (suc (suc (suc (suc (suc (suc (suc (suc (suc k))))))))) h = omega arith

value_from-digits : (f n : ℕ) (s : String) → n < f → value_from 0 (digits f n s) ≡ value_from n s
unfolding digits value_from
value_from-digits zero n s h = absurd (omega arith)
value_from-digits (suc f) n s h = elim (Bool-cases (ltb n 10)) [
  | inl small ↦ rw small (ap (λ k. value_from k s) (ground (arith, digit_code (n % 10))))
  | inr big ↦ rw big (
      value_from-digits f (n / 10) (digit_char (n % 10) ∷ s) (ground arith)
      ∙ ap (λ k. value_from k s) (ground (arith, digit_code (n % 10))))
]

-- Two numbers with one spelling are equal.
pub show_nat_inj : (m n : ℕ) → show_nat m ≡ show_nat n → m ≡ n
unfolding show_nat value_from
show_nat_inj m n h =
    sym (value_from-digits (suc m) m [] (omega arith))
    ∙ ap (value_from 0) h
    ∙ value_from-digits (suc n) n [] (omega arith)

unfoldable pub is_digit : Char → Bool
is_digit c = leb 48 (code c) && leb (code c) 57

abbrev pub AllDigits : String → Type 0
AllDigits [] = Unit
AllDigits (c ∷ s) = (is_digit c ≡ true) × AllDigits s

digit_char-is_digit : (k : ℕ) → is_digit (digit_char k) ≡ true
unfolding digit_char is_digit
digit_char-is_digit zero = refl
digit_char-is_digit (suc zero) = refl
digit_char-is_digit (suc (suc zero)) = refl
digit_char-is_digit (suc (suc (suc zero))) = refl
digit_char-is_digit (suc (suc (suc (suc zero)))) = refl
digit_char-is_digit (suc (suc (suc (suc (suc zero))))) = refl
digit_char-is_digit (suc (suc (suc (suc (suc (suc zero)))))) = refl
digit_char-is_digit (suc (suc (suc (suc (suc (suc (suc zero))))))) = refl
digit_char-is_digit (suc (suc (suc (suc (suc (suc (suc (suc zero)))))))) = refl
digit_char-is_digit (suc (suc (suc (suc (suc (suc (suc (suc (suc k))))))))) = refl

digits-AllDigits : (f n : ℕ) (s : String) → AllDigits s → AllDigits (digits f n s)
unfolding digits
digits-AllDigits zero n s h = h
digits-AllDigits (suc f) n s h = elim (Bool-cases (ltb n 10)) [
  | inl e ↦ rw e (digit_char-is_digit (n % 10), h)
  | inr e ↦
      rw e (digits-AllDigits f (n / 10) (digit_char (n % 10) ∷ s) (digit_char-is_digit (n % 10), h))
]

digits-head :
    (f n : ℕ) (c : Char) (s : String)
    → is_digit c ≡ true
    → (d : Char) × (t : String) × (digits f n (c ∷ s) ≡ d ∷ t) × (is_digit d ≡ true)
unfolding digits
digits-head zero n c s h = (c, s, refl, h)
digits-head (suc f) n c s h = elim (Bool-cases (ltb n 10)) [
  | inl e ↦ (digit_char (n % 10), c ∷ s, rw e refl, digit_char-is_digit (n % 10))
  | inr e ↦
      let (d, t, same, is) =
        digits-head f (n / 10) (digit_char (n % 10)) (c ∷ s) (digit_char-is_digit (n % 10)) in
      (d, t, rw e same, is)
]

-- A number is written in digits, of which there is at least one.
pub show_nat-digits :
    (n : ℕ)
    → AllDigits (show_nat n)
      × ((d : Char) × (t : String) × (show_nat n ≡ d ∷ t) × (is_digit d ≡ true))
unfolding show_nat
show_nat-digits n = (
  digits-AllDigits (suc n) n [] tt,
  elim (Bool-cases (ltb n 10)) [
    | inl e ↦ (digit_char (n % 10), [], rw e refl, digit_char-is_digit (n % 10))
    | inr e ↦
        let (d, t, same, is) =
          digits-head n (n / 10) (digit_char (n % 10)) [] (digit_char-is_digit (n % 10)) in
        (d, t, rw e same, is)
  ],
)
