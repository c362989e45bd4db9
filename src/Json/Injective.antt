-- ===== src/Json/Injective.antt =====
-- `canonical_json` of packages/schema/aro_schema/digests.py on the values that a run's subject holds:
-- null, texts, numbers and lists of these. Different values have different texts.
use Prim.Native.String.{[] as nil_text, ◌∷◌ as cons_text}
use text.Mathlib.TextLemmas.{append_assoc, append_cancel_left, cons-append, nil-append}
use agent_runtime_observator.Prelude.{
  ℕ, ◌<◌, ◌≡◌, refl, sym, ap, ◌∙◌, true, false, Char, code, String, arith, ◌==◌, if◌then◌else◌,
}
use agent_runtime_observator.Text.{◌⁀◌, char-append, join}
use agent_runtime_observator.Text.Decimal.{
  show_nat, show_nat_inj, show_nat-digits, is_digit, AllDigits,
}
use agent_runtime_observator.Json.{
  Value, null, int, str, arr, Items, nil, item, pos, quote, escape, show_int, render_items,
  canonical_json,
}
use agent_runtime_observator.Json.Escape.{quote_inj}

-- The values of a subject.
mutual
  pub data Cell : Type 0 where
    blank : Cell
    words : String → Cell
    number : ℕ → Cell
    row : Cells → Cell

  pub data Cells : Type 0 where
    no_cells : Cells
    cell : Cell → Cells → Cells

unfoldable mutual
  pub value_of : Cell → Value
  value_of blank = null
  value_of (words s) = str s
  value_of (number n) = int (pos n)
  value_of (row cs) = arr (items_of cs)

  pub items_of : Cells → Items
  items_of no_cells = nil
  items_of (cell c cs) = item (value_of c) (items_of cs)

-- What may follow a number: nothing, or a character that is no digit.
abbrev pub Stops : String → Type 0
Stops nil_text = Unit
Stops (cons_text c s) = is_digit c ≡ false

digits_of : String → String
digits_of nil_text = nil_text
digits_of (cons_text c s) = if is_digit c then cons_text c (digits_of s) else nil_text

after_digits : String → String
after_digits nil_text = nil_text
after_digits (cons_text c s) = if is_digit c then after_digits s else cons_text c s

digits-split :
    (t x : String) → AllDigits t → Stops x → (digits_of (t ⁀ x) ≡ t) × (after_digits (t ⁀ x) ≡ x)
unfolding digits_of after_digits
digits-split nil_text nil_text all stops = (refl, refl)
digits-split nil_text (cons_text c x) all stops =
    let start = nil-append (cons_text c x) in
    (ap digits_of start ∙ rw stops refl, ap after_digits start ∙ rw stops refl)
digits-split (cons_text c t) x (d, all) stops =
    let rest = digits-split t x all stops in
    let start = cons-append c t x in
    (ap digits_of start ∙ rw d (ap (cons_text c) rest.0), ap after_digits start ∙ rw d rest.1)

show_nat-ends :
    (m n : ℕ) (x y : String)
    → Stops x
    → Stops y
    → show_nat m ⁀ x ≡ show_nat n ⁀ y
    → (m ≡ n) × (x ≡ y)
show_nat-ends m n x y sx sy h =
    let left = digits-split (show_nat m) x (show_nat-digits m).0 sx in
    let right = digits-split (show_nat n) y (show_nat-digits n).0 sy in
    (
      show_nat_inj m n (sym left.0 ∙ ap digits_of h ∙ right.0),
      sym left.1 ∙ ap after_digits h ∙ right.1,
    )

-- What the first character says about a value's text.
kind_of : String → ℕ
kind_of nil_text = 0
kind_of (cons_text c s) =
    let n = code c in
    if n == 110
    then 1
    else if n == 34
    then 2
    else if n == 91
    then 3
    else if is_digit c
    then 4
    else 0

kind : Cell → ℕ
kind blank = 1
kind (words s) = 2
kind (row cs) = 3
kind (number n) = 4

digit-kind : (c : Char) (s : String) → is_digit c ≡ true → kind_of (cons_text c s) ≡ 4
unfolding kind_of is_digit
digit-kind c s h = ground (arith, h)

written : Cell → String
unfolding canonical_json value_of
written c = canonical_json (value_of c)

inside : Cells → String
unfolding value_of
inside cs = join "," (render_items (items_of cs))

-- What stands behind the first value of a list.
more : Cells → String → String
unfolding inside
more no_cells z = z
more (cell c cs) z = cons_text "," (inside (cell c cs) ⁀ z)

inside-cell : (c : Cell) (cs : Cells) (z : String) → inside (cell c cs) ⁀ z ≡ written c ⁀ more cs z
unfolding more written
inside-cell c no_cells z = refl
inside-cell c (cell d ds) z =
    append_assoc (written c) ("," ⁀ inside (cell d ds)) z
    ∙ ap (λ s. written c ⁀ s)
        (append_assoc "," (inside (cell d ds)) z ∙ char-append "," (inside (cell d ds) ⁀ z))

written-row :
    (cs : Cells) (x : String) → written (row cs) ⁀ x ≡ cons_text "[" (inside cs ⁀ cons_text "]" x)
unfolding inside written
written-row cs x =
    append_assoc "[" (inside cs ⁀ "]") x
    ∙ char-append "[" ((inside cs ⁀ "]") ⁀ x)
    ∙ ap (cons_text "[")
        (append_assoc (inside cs) "]" x ∙ ap (λ s. inside cs ⁀ s) (char-append "]" x))

kind_of-written : (c : Cell) (x : String) → kind_of (written c ⁀ x) ≡ kind c
unfolding written quote kind_of kind show_int
kind_of-written blank x = ap kind_of (cons-append "n" "ull" x)
kind_of-written (words s) x =
    ap kind_of (append_assoc "\"" (escape s ⁀ "\"") x ∙ char-append "\"" ((escape s ⁀ "\"") ⁀ x))
kind_of-written (row cs) x = ap kind_of (written-row cs x)
kind_of-written (number n) x =
    let (all, (d, t, same, is)) = show_nat-digits n in
    ap (λ s. kind_of (s ⁀ x)) same ∙ ap kind_of (cons-append d t x) ∙ digit-kind d (t ⁀ x) is

some_kind : (c : Cell) → 0 < kind c
unfolding kind
some_kind blank = omega arith
some_kind (words s) = omega arith
some_kind (row cs) = omega arith
some_kind (number n) = omega arith

more-Stops : (cs : Cells) (x : String) → Stops (more cs (cons_text "]" x))
unfolding more is_digit
more-Stops no_cells x = refl
more-Stops (cell c cs) x = refl

first_code : String → ℕ
first_code nil_text = 0
first_code (cons_text c s) = code c

-- A list that ends is not one that goes on.
bracket-comma {ℓ} : {A : Type ℓ} (x y : String) → cons_text "]" x ≡ cons_text "," y → A
unfolding first_code
bracket-comma x y h = absurd (omega (arith, ap first_code h))

same_kind : (c d : Cell) (x y : String) → written c ⁀ x ≡ written d ⁀ y → kind c ≡ kind d
same_kind c d x y h = sym (kind_of-written c x) ∙ ap kind_of h ∙ kind_of-written d y

-- A list that ends at once is not one with a first value.
ends-cell {ℓ} :
    {A : Type ℓ} (d : Cell) (ds : Cells) (x z : String)
    → inside no_cells ⁀ cons_text "]" x ≡ inside (cell d ds) ⁀ z
    → A
unfolding inside kind_of is_digit kind join render_items
ends-cell d ds x z h =
    let zero_kind : 0 ≡ kind d =
      sym (ap kind_of (nil-append (cons_text "]" x)))
      ∙ ap kind_of (h ∙ inside-cell d ds z)
      ∙ kind_of-written d (more ds z) in
    absurd (omega (arith, zero_kind, some_kind d))

-- Two tails of lists, where it is known of the lists.
more_inj :
    (cs ds : Cells) (x y : String)
    → (inside cs ⁀ cons_text "]" x ≡ inside ds ⁀ cons_text "]" y → (cs ≡ ds) × (x ≡ y))
    → more cs (cons_text "]" x) ≡ more ds (cons_text "]" y)
    → (cs ≡ ds) × (x ≡ y)
unfolding more
more_inj no_cells no_cells x y lists h = (refl, cc h)
more_inj no_cells (cell d ds) x y lists h = bracket-comma x (inside (cell d ds) ⁀ cons_text "]" y) h
more_inj (cell c cs) no_cells x y lists h =
    bracket-comma y (inside (cell c cs) ⁀ cons_text "]" x) (sym h)
more_inj (cell c cs) (cell d ds) x y lists h = lists (cc h)

mutual
  unfolding written kind quote show_int inside more

  written_inj :
      (c d : Cell) (x y : String)
      → Stops x
      → Stops y
      → kind c ≡ kind d
      → written c ⁀ x ≡ written d ⁀ y
      → (c ≡ d) × (x ≡ y)
  written_inj blank blank x y sx sy k h = (refl, append_cancel_left "null" x y h)
  written_inj (words s) (words t) x y sx sy k h =
      let both = quote_inj s t x y h in (ap words both.0, both.1)
  written_inj (number m) (number n) x y sx sy k h =
      let both = show_nat-ends m n x y sx sy h in (ap number both.0, both.1)
  written_inj (row cs) (row ds) x y sx sy k h =
      let both = inside_inj cs ds x y (cc (sym (written-row cs x) ∙ h ∙ written-row ds y)) in
      (ap row both.0, both.1)
  written_inj blank (words t) x y sx sy k h = absurd (omega (arith, k))
  written_inj blank (number n) x y sx sy k h = absurd (omega (arith, k))
  written_inj blank (row ds) x y sx sy k h = absurd (omega (arith, k))
  written_inj (words s) blank x y sx sy k h = absurd (omega (arith, k))
  written_inj (words s) (number n) x y sx sy k h = absurd (omega (arith, k))
  written_inj (words s) (row ds) x y sx sy k h = absurd (omega (arith, k))
  written_inj (number m) blank x y sx sy k h = absurd (omega (arith, k))
  written_inj (number m) (words t) x y sx sy k h = absurd (omega (arith, k))
  written_inj (number m) (row ds) x y sx sy k h = absurd (omega (arith, k))
  written_inj (row cs) blank x y sx sy k h = absurd (omega (arith, k))
  written_inj (row cs) (words t) x y sx sy k h = absurd (omega (arith, k))
  written_inj (row cs) (number n) x y sx sy k h = absurd (omega (arith, k))

  inside_inj :
      (cs ds : Cells) (x y : String)
      → inside cs ⁀ cons_text "]" x ≡ inside ds ⁀ cons_text "]" y
      → (cs ≡ ds) × (x ≡ y)
  inside_inj no_cells no_cells x y h =
      (refl, cc (sym (nil-append (cons_text "]" x)) ∙ h ∙ nil-append (cons_text "]" y)))
  inside_inj no_cells (cell d ds) x y h = ends-cell d ds x (cons_text "]" y) h
  inside_inj (cell c cs) no_cells x y h = ends-cell c cs y (cons_text "]" x) (sym h)
  inside_inj (cell c cs) (cell d ds) x y h =
      let left = more cs (cons_text "]" x) in
      let right = more ds (cons_text "]" y) in
      let start : written c ⁀ left ≡ written d ⁀ right =
        sym (inside-cell c cs (cons_text "]" x)) ∙ h ∙ inside-cell d ds (cons_text "]" y) in
      let one =
        written_inj c d left right (more-Stops cs x) (more-Stops ds y)
          (same_kind c d left right start) start in
      let rest = more_inj cs ds x y (inside_inj cs ds x y) one.1 in
      (ap (λ e. cell e cs) one.0 ∙ ap (cell d) rest.0, rest.1)

-- Texts that start two equal texts come from one value, where what follows starts with no digit.
pub canonical_json_inj :
    (c d : Cell) (x y : String)
    → Stops x
    → Stops y
    → canonical_json (value_of c) ⁀ x ≡ canonical_json (value_of d) ⁀ y
    → (c ≡ d) × (x ≡ y)
unfolding written
canonical_json_inj c d x y sx sy h = written_inj c d x y sx sy (same_kind c d x y h) h
