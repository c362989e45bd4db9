-- ===== src/Json/Escape.antt =====
-- The quoted texts of `json.dumps` in packages/schema/aro_schema/digests.py can be read back: no two
-- texts, whatever follows them, are written the same way.
use Prim.Native.String.{[] as nil_text, ◌∷◌ as cons_text}
use mathlib.Core.Option.{some_inj}
use text.Mathlib.TextEquality.{Char-path}
use text.Mathlib.TextLemmas.{append_assoc, cons-append, nil-append}
use agent_runtime_observator.Prelude.{
  ℕ, zero, suc, ◌+◌, ◌-◌, ◌*◌, ◌<◌, ◌≡◌, refl, sym, ap, ◌∙◌, inl, inr, true, Char, code, String,
  Option, none, some, arith, ltb, ◌==◌, Bool-cases, ==_iff, if◌then◌else◌,
}
use agent_runtime_observator.Text.{◌⁀◌, char-append}
use agent_runtime_observator.Text.Decimal.{show_nat}
use agent_runtime_observator.Json.{hex_digit, escape_char, escape, quote}

-- The value of a hexadecimal digit.
hex_value : Char → ℕ
hex_value c = let n = code c in if ltb n 58 then n - 48 else n - 87

-- The number behind `\u`, which has four digits.
read_hex : String → Option (ℕ × String)
unfolding hex_value
read_hex (cons_text a (cons_text b (cons_text c (cons_text d s)))) =
    some (16 * hex_value c + hex_value d, s)
read_hex _ = none

-- The character behind a backslash, as its code.
read_escape : String → Option (ℕ × String)
unfolding read_hex
read_escape nil_text = none
read_escape (cons_text c s) =
    let n = code c in
    let hex = read_hex s in
    if n == 34
    then some (34, s)
    else if n == 92
    then some (92, s)
    else if n == 110
    then some (10, s)
    else if n == 114
    then some (13, s)
    else if n == 116
    then some (9, s)
    else if n == 98
    then some (8, s)
    else if n == 102
    then some (12, s)
    else hex

-- The first character of a quoted text, as its code; none at the closing quote.
read_code : String → Option (ℕ × String)
unfolding read_escape
read_code nil_text = none
read_code (cons_text c s) =
    let n = code c in
    let escaped = read_escape s in
    if n == 34 then none else if n == 92 then escaped else some (n, s)

hex_digit_read :
    (n : ℕ) → n < 16 → (c : Char) × (hex_digit n ≡ cons_text c nil_text) × (hex_value c ≡ n)
unfolding hex_digit hex_value show_nat
hex_digit_read zero h = (_, refl, refl)
hex_digit_read (suc zero) h = (_, refl, refl)
hex_digit_read (suc (suc zero)) h = (_, refl, refl)
hex_digit_read (suc (suc (suc zero))) h = (_, refl, refl)
hex_digit_read (suc (suc (suc (suc zero)))) h = (_, refl, refl)
hex_digit_read (suc (suc (suc (suc (suc zero))))) h = (_, refl, refl)
hex_digit_read (suc (suc (suc (suc (suc (suc zero)))))) h = (_, refl, refl)
hex_digit_read (suc (suc (suc (suc (suc (suc (suc zero))))))) h = (_, refl, refl)
hex_digit_read (suc (suc (suc (suc (suc (suc (suc (suc zero)))))))) h = (_, refl, refl)
hex_digit_read (suc (suc (suc (suc (suc (suc (suc (suc (suc zero))))))))) h = (_, refl, refl)
hex_digit_read (suc (suc (suc (suc (suc (suc (suc (suc (suc (suc zero)))))))))) h = (_, refl, refl)
hex_digit_read (suc (suc (suc (suc (suc (suc (suc (suc (suc (suc (suc zero))))))))))) h =
    (_, refl, refl)
hex_digit_read (suc (suc (suc (suc (suc (suc (suc (suc (suc (suc (suc (suc zero)))))))))))) h =
    (_, refl, refl)
hex_digit_read (suc (suc (suc (suc (suc (suc (suc (suc (suc (suc (suc (suc (suc zero)))))))))))))
      h =
    (_, refl, refl)
hex_digit_read
      (suc (suc (suc (suc (suc (suc (suc (suc (suc (suc (suc (suc (suc (suc zero)))))))))))))) h =
    (_, refl, refl)
hex_digit_read
      (suc (suc (suc (suc (suc (suc (suc (suc (suc (suc (suc (suc (suc (suc (suc zero)))))))))))))))
      h =
    (_, refl, refl)
hex_digit_read
      (suc
        (suc (suc (suc (suc (suc (suc (suc (suc (suc (suc (suc (suc (suc (suc (suc k))))))))))))))))
      h =
    absurd (omega (arith, h))

pair-append :
    (c d : Char) (x : String) → cons_text c (cons_text d nil_text) ⁀ x ≡ cons_text c (cons_text d x)
pair-append c d x = cons-append c (cons_text d nil_text) x ∙ ap (cons_text c) (char-append d x)

-- Five characters and one more, behind the backslash of a control character.
six-append :
    (c d e f g h : Char) (x : String)
    → (cons_text c (cons_text d (cons_text e (cons_text f (cons_text g nil_text))))
          ⁀ cons_text h nil_text)
        ⁀ x
      ≡ cons_text c (cons_text d (cons_text e (cons_text f (cons_text g (cons_text h x)))))
six-append c d e f g h x = simp (cons-append, nil-append)

module _ (c : Char) (x : String) where
  -- A character that is written as a backslash and one character.
  read-short :
      (d : Char) (k : ℕ)
      → escape_char c ≡ cons_text "\\" (cons_text d nil_text)
      → read_escape (cons_text d x) ≡ some (k, x)
      → (code c == k) ≡ true
      → read_code (escape_char c ⁀ x) ≡ some (code c, x)
  unfolding read_code
  read-short d k written read same =
      ap (λ t. read_code (t ⁀ x)) written
      ∙ ap read_code (pair-append "\\" d x)
      ∙ read
      ∙ ap (λ n. some (n, x)) (sym ((==_iff (code c) k).0 same))

  -- A control character, written as six characters.
  read-control :
      (g : Char) (n : ℕ)
      → n < 16
      → escape_char c
        ≡ cons_text "\\" (cons_text "u" (cons_text "0" (cons_text "0" (cons_text g nil_text))))
          ⁀ hex_digit n
      → 16 * hex_value g + n ≡ code c
      → read_code (escape_char c ⁀ x) ≡ some (code c, x)
  unfolding read_code
  read-control g n less written value =
      let (h, digit, is) = hex_digit_read n less in
      ap (λ t. read_code (t ⁀ x)) (rw (← digit) written)
      ∙ ap read_code (six-append "\\" "u" "0" "0" g h x)
      ∙ ap (λ m. some (16 * hex_value g + m, x)) is
      ∙ ap (λ m. some (m, x)) value

  read-escape_char : read_code (escape_char c ⁀ x) ≡ some (code c, x)
  unfolding read_code escape_char hex_value
  read-escape_char = elim (Bool-cases (code c == 34)) [
    | inl e ↦ read-short "\"" 34 (rw e refl) refl e
    | inr e34 ↦ elim (Bool-cases (code c == 92)) [
      | inl e ↦ read-short "\\" 92 (rw (e34, e) refl) refl e
      | inr e92 ↦ elim (Bool-cases (code c == 10)) [
        | inl e ↦ read-short "n" 10 (rw (e34, e92, e) refl) refl e
        | inr e10 ↦ elim (Bool-cases (code c == 13)) [
          | inl e ↦ read-short "r" 13 (rw (e34, e92, e10, e) refl) refl e
          | inr e13 ↦ elim (Bool-cases (code c == 9)) [
            | inl e ↦ read-short "t" 9 (rw (e34, e92, e10, e13, e) refl) refl e
            | inr e9 ↦ elim (Bool-cases (code c == 8)) [
              | inl e ↦ read-short "b" 8 (rw (e34, e92, e10, e13, e9, e) refl) refl e
              | inr e8 ↦ elim (Bool-cases (code c == 12)) [
                | inl e ↦ read-short "f" 12 (rw (e34, e92, e10, e13, e9, e8, e) refl) refl e
                | inr e12 ↦ elim (Bool-cases (ltb (code c) 16)) [
                  | inl e ↦
                      read-control "0" (code c) (ground (arith, e))
                        (rw (e34, e92, e10, e13, e9, e8, e12, e) refl) (omega arith)
                  | inr e16 ↦ elim (Bool-cases (ltb (code c) 32)) [
                    | inl e ↦
                        read-control "1" (code c - 16) (ground (arith, e))
                          (rw (e34, e92, e10, e13, e9, e8, e12, e16, e) refl) (ground (arith, e16))
                    | inr e32 ↦
                        ap (λ t. read_code (t ⁀ x))
                          (rw (e34, e92, e10, e13, e9, e8, e12, e16, e32) refl)
                        ∙ ap read_code (char-append c x)
                        ∙ rw (e34, e92) refl
                  ]
                ]
              ]
            ]
          ]
        ]
      ]
    ]
  ]

read_escaped :
    (c : Char) (s z : String) → read_code (escape (cons_text c s) ⁀ z) ≡ some (code c, escape s ⁀ z)
unfolding escape
read_escaped c s z =
    ap read_code (append_assoc (escape_char c) (escape s) z) ∙ read-escape_char c (escape s ⁀ z)

read_ended : (x : String) → read_code (escape nil_text ⁀ cons_text "\"" x) ≡ none
unfolding escape read_code
read_ended x = ap read_code (nil-append (cons_text "\"" x))

-- Quoted texts that start two equal texts are equal, and so is what follows them.
escape_inj :
    (s t x y : String)
    → escape s ⁀ cons_text "\"" x ≡ escape t ⁀ cons_text "\"" y
    → (s ≡ t) × (x ≡ y)
unfolding escape
escape_inj nil_text nil_text x y h =
    (refl, cc (sym (nil-append (cons_text "\"" x)) ∙ h ∙ nil-append (cons_text "\"" y)))
escape_inj nil_text (cons_text d t) x y h =
    cc (sym (read_ended x) ∙ ap read_code h ∙ read_escaped d t (cons_text "\"" y))
escape_inj (cons_text c s) nil_text x y h =
    cc (sym (read_ended y) ∙ ap read_code (sym h) ∙ read_escaped c s (cons_text "\"" x))
escape_inj (cons_text c s) (cons_text d t) x y h =
    let both : some (code c, escape s ⁀ cons_text "\"" x)
        ≡ some (code d, escape t ⁀ cons_text "\"" y) =
      sym (read_escaped c s (cons_text "\"" x))
      ∙ ap read_code h
      ∙ read_escaped d t (cons_text "\"" y) in
    let (same, ends) = escape_inj s t x y (ap (λ p. p.1) (some_inj.0 both)) in
    (
      ap (λ e. cons_text e s) (Char-path c d (ap (λ p. p.0) (some_inj.0 both)))
          ∙ ap (cons_text d) same,
      ends,
    )

-- The same for texts with their quotes.
pub quote_inj : (s t x y : String) → quote s ⁀ x ≡ quote t ⁀ y → (s ≡ t) × (x ≡ y)
unfolding quote
quote_inj s t x y h = escape_inj s t x y (cc (sym (opened s x) ∙ h ∙ opened t y))
  where
    opened : (s x : String) → quote s ⁀ x ≡ cons_text "\"" (escape s ⁀ cons_text "\"" x)
    opened s x =
        append_assoc "\"" (escape s ⁀ "\"") x
        ∙ char-append "\"" ((escape s ⁀ "\"") ⁀ x)
        ∙ ap (cons_text "\"")
            (append_assoc (escape s) "\"" x ∙ ap (λ e. escape s ⁀ e) (char-append "\"" x))
