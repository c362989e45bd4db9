-- ===== src/Prelude/Lists.antt =====
-- Lists over the native numbers, Python's comprehensions, and predicates by recursion.
use Prim.Native.Nat.{ℕ, zero, suc, ◌+◌}
use Prim.Native.String.{String}
use mathlib.Core.Path.{◌≡◌, refl, sym, ap, ◌∙◌, subst}
use mathlib.Core.Logic.{◌↔◌, inl, inr}
use mathlib.Core.Bool.{Bool, true, false, not, ◌&&◌, ◌||◌}
use mathlib.Core.Option.{Option, none, some}
use mathlib.Core.List.{List, [], ◌∷◌, ◌++◌, Memᴰ}
use mathlib.Core.List.Memᴰ as Mem
use text.Mathlib.TextEquality.{eq_iff}
use native.Mathlib.Omega.{arith}
use agent_runtime_observator.Prelude.Tests.{str_eq, Bool-cases, if◌then◌else◌}

module _ {ℓ} {A : Type ℓ} where
  abbrev pub length : List A → ℕ
  length [] = 0
  length (x ∷ xs) = suc (length xs)

  abbrev pub get_elem? : List A → ℕ → Option A
  get_elem? [] i = none
  get_elem? (x ∷ xs) zero = some x
  get_elem? (x ∷ xs) (suc i) = get_elem? xs i

  abbrev pub take : ℕ → List A → List A
  take zero xs = []
  take (suc n) [] = []
  take (suc n) (x ∷ xs) = x ∷ take n xs

  -- `[x for x in xs if p(x)]`
  abbrev pub keep : (A → Bool) → List A → List A
  keep p [] = []
  keep p (x ∷ xs) = if p x then x ∷ keep p xs else keep p xs

  abbrev pub any : (A → Bool) → List A → Bool
  any p [] = false
  any p (x ∷ xs) = p x || any p xs

  abbrev pub all : (A → Bool) → List A → Bool
  all p [] = true
  all p (x ∷ xs) = p x && all p xs

  -- `sum(1 for x in xs if p(x))`
  abbrev pub count_if : (A → Bool) → List A → ℕ
  count_if p [] = 0
  count_if p (x ∷ xs) = (if p x then 1 else 0) + count_if p xs

  pub length-append : (xs ys : List A) → length (xs ++ ys) ≡ length xs + length ys
  length-append [] ys = omega arith
  length-append (x ∷ xs) ys = omega (arith, length-append xs ys)

  abbrev pub All {κ} : (A → Type κ) → List A → Type κ
  All P [] = Unit
  All P (x ∷ xs) = P x × All P xs

  pub All-append {κ} : (P : A → Type κ) (xs ys : List A) → All P xs → All P ys → All P (xs ++ ys)
  All-append P [] ys h k = k
  All-append P (x ∷ xs) ys (p, h) k = (p, All-append P xs ys h k)

module _ {ℓ κ} {A : Type ℓ} (P : A → Type κ) where
  pub All_intro : (xs : List A) → ((x : A) → Memᴰ x xs → P x) → All P xs
  All_intro [] h = tt
  All_intro (x ∷ xs) h = (h x (Memᴰ.head refl), All_intro xs (λ y m. h y (Memᴰ.tail m)))

  pub All_elim : {x : A} (xs : List A) → All P xs → Memᴰ x xs → P x
  All_elim [] h m = elim m [ ]
  All_elim (y ∷ xs) (p, h) m = elim (Mem.cases_cons m) [
    | inl e ↦ subst P (sym e) p
    | inr t ↦ All_elim xs h t
  ]

-- `x in xs` on texts
abbrev pub contains : List String → String → Bool
contains [] s = false
contains (x ∷ xs) s = str_eq x s || contains xs s

-- `len(xs) != len(set(xs))`, negated: no text occurs twice.
abbrev pub all_distinct : List String → Bool
all_distinct [] = true
all_distinct (x ∷ xs) = not (contains xs x) && all_distinct xs

-- Membership, in the form that can be matched.
pub contains_iff : (xs : List String) (s : String) → (contains xs s ≡ true) ↔ Memᴰ s xs
contains_iff [] s = (λ h. cc, λ m. elim m [ ])
contains_iff (x ∷ xs) s = (
  λ h. elim (Bool-cases (str_eq x s)) [
    | inl e ↦ Memᴰ.head (sym ((eq_iff x s).0 e))
    | inr e ↦ Memᴰ.tail ((contains_iff xs s).0 (ground (arith, h, e)))
  ],
  λ m. elim (Mem.cases_cons m) [
    | inl e ↦ ground (arith, (eq_iff x s).1 (sym e))
    | inr t ↦ ground (arith, (contains_iff xs s).1 t)
  ],
)

module _ {ℓ} {A : Type ℓ} (p : A → Bool) where
  pub any_sound : (xs : List A) → any p xs ≡ true → (x : A) × Memᴰ x xs × (p x ≡ true)
  any_sound [] h = cc
  any_sound (x ∷ xs) h = elim (Bool-cases (p x)) [
    | inl e ↦ (x, Memᴰ.head refl, e)
    | inr e ↦
        let found = any_sound xs (ground (arith, h, e)) in (found.0, Memᴰ.tail found.1, found.2)
  ]

  pub any_complete : (x : A) {xs : List A} → Memᴰ x xs → p x ≡ true → any p xs ≡ true
  any_complete x (Memᴰ.head e) h = rw ((sym (ap p e)) ∙ h) refl
  any_complete x (Memᴰ.tail m) h = ground (arith, any_complete x m h)

  pub mem-keep : (x : A) (xs : List A) → Memᴰ x (keep p xs) → Memᴰ x xs × (p x ≡ true)
  mem-keep x [] m = elim m [ ]
  mem-keep x (y ∷ xs) m = elim (Bool-cases (p y)) [
    | inl e ↦ elim (Mem.cases_cons (rw e at m)) [
      | inl same ↦ (Memᴰ.head same, ap p same ∙ e)
      | inr t ↦ let rest = mem-keep x xs t in (Memᴰ.tail rest.0, rest.1)
    ]
    | inr e ↦ let rest = mem-keep x xs (rw e at m) in (Memᴰ.tail rest.0, rest.1)
  ]

module _ {ℓ} {A : Type ℓ} where
  pub any-concat : (p : A → Bool) (xs : List A) (x : A) → any p (xs ++ x ∷ []) ≡ (any p xs || p x)
  any-concat p [] x = ground arith
  any-concat p (y ∷ xs) x = ground (arith, any-concat p xs x)

  pub All-map {κ μ} :
      (P : A → Type κ) (Q : A → Type μ) (xs : List A) → ((x : A) → P x → Q x) → All P xs → All Q xs
  All-map P Q [] f h = tt
  All-map P Q (x ∷ xs) f (p, h) = (f x p, All-map P Q xs f h)

  pub any-false : (p : A → Bool) (xs : List A) → All (λ x. p x ≡ false) xs → any p xs ≡ false
  any-false p [] h = refl
  any-false p (x ∷ xs) (e, h) = ground (arith, e, any-false p xs h)

  pub all-true : (p : A → Bool) (xs : List A) → All (λ x. p x ≡ true) xs → all p xs ≡ true
  all-true p [] h = refl
  all-true p (x ∷ xs) (e, h) = ground (arith, e, all-true p xs h)

pub keep-concat {ℓ} :
    {A : Type ℓ} (p : A → Bool) (xs : List A) (x : A)
    → keep p (xs ++ x ∷ []) ≡ (if p x then keep p xs ++ x ∷ [] else keep p xs)
keep-concat p [] x = ground arith
keep-concat p (y ∷ xs) x = ground (arith, keep-concat p xs x)

pub contains-concat :
    (xs : List String) (x s : String) → contains (xs ++ x ∷ []) s ≡ (contains xs s || str_eq x s)
contains-concat [] x s = ground arith
contains-concat (y ∷ xs) x s = ground (arith, contains-concat xs x s)

-- One more text, which is new, keeps the texts distinct.
pub all_distinct-concat :
    (xs : List String) (x : String)
    → all_distinct xs ≡ true
    → contains xs x ≡ false
    → all_distinct (xs ++ x ∷ []) ≡ true
all_distinct-concat [] x h n = refl
all_distinct-concat (y ∷ xs) x h n = ground (
  arith,
  all_distinct-concat xs x (ground (arith, h)) (ground (arith, n)),
  contains-concat xs x y,
  eq_iff x y,
  eq_iff y x,
)
