-- ===== src/Text/Replace.antt =====
-- What `t in s` and `s.replace(t, r, 1)` say of the places of t in s.
use Prim.Native.String
use Prim.Native.String.{[], ◌∷◌}
use text.Mathlib.TextLemmas.{
  cons-append, nil-append, length-nil, length-cons, tail-eq_of_cons-eq, nil≢cons,
}
use text.Mathlib.TextEquality.{Char-path}
use agent_runtime_observator.Prelude.{
  ℕ, ◌≤◌, ◌≡◌, ◌≢◌, refl, sym, ap, ◌∙◌, inl, inr, true, false, Char, code, String, none, some,
  arith, ◌==◌, Bool-cases, Option-cases,
}
use agent_runtime_observator.Text.{◌⁀◌, strip_prefix?, contains_text, replace_first}

strip_prefix?-same :
    (c d : Char) (t s : String)
    → (code c == code d) ≡ true
    → strip_prefix? (c ∷ t) (d ∷ s) ≡ strip_prefix? t s
unfolding strip_prefix?
strip_prefix?-same c d t s e = rw e refl

same_code : (n : ℕ) → (n == n) ≡ true
same_code n = ground arith

code-path : (n m : ℕ) → (n == m) ≡ true → n ≡ m
code-path n m h = ground (arith, h)

strip_prefix?-append : (t rest : String) → strip_prefix? t (t ⁀ rest) ≡ some rest
unfolding strip_prefix?
strip_prefix?-append [] rest = ap some (nil-append rest)
strip_prefix?-append (c ∷ t) rest =
    ap (strip_prefix? (c ∷ t)) (cons-append c t rest)
    ∙ strip_prefix?-same c c t (t ⁀ rest) (same_code (code c))
    ∙ strip_prefix?-append t rest

strip_prefix?-eq-some : (t s rest : String) → strip_prefix? t s ≡ some rest → s ≡ t ⁀ rest
unfolding strip_prefix?
strip_prefix?-eq-some [] s rest h = cc h ∙ sym (nil-append rest)
strip_prefix?-eq-some (c ∷ t) [] rest h = cc
strip_prefix?-eq-some (c ∷ t) (d ∷ s) rest h = elim (Bool-cases (code c == code d)) [
  | inl e ↦
      ap (λ (x : String). d ∷ x)
        (strip_prefix?-eq-some t s rest (sym (strip_prefix?-same c d t s e) ∙ h))
      ∙ ap (λ x. x ∷ (t ⁀ rest)) (sym (Char-path c d (code-path (code c) (code d) e)))
      ∙ sym (cons-append c t rest)
  | inr e ↦ cc (rw e at h)
]

-- The first place of t in s, and s with another text there.
pub record Replaces (t r s : String) : Type 0 where
  pub before : String
  pub after : String
  pub found : s ≡ before ⁀ (t ⁀ after)
  pub result : replace_first t r s ≡ before ⁀ (r ⁀ after)
  pub first : (b a : String) → s ≡ b ⁀ (t ⁀ a) → String.count before ≤ String.count b

replace_first-here :
    (t r s rest : String) → strip_prefix? t s ≡ some rest → replace_first t r s ≡ r ⁀ rest
unfolding replace_first
replace_first-here t r [] rest h = rw (replace_first, h) refl
replace_first-here t r (c ∷ s) rest h = rw (replace_first, h) refl

replace_first-there :
    (t r : String) (c : Char) (s : String)
    → strip_prefix? t (c ∷ s) ≡ none
    → replace_first t r (c ∷ s) ≡ c ∷ replace_first t r s
unfolding replace_first
replace_first-there t r c s h = rw (replace_first, h) refl

here : (t r s rest : String) → strip_prefix? t s ≡ some rest → Replaces t r s
here t r s rest h = record {
  before = [];
  after = rest;
  found = strip_prefix?-eq-some t s rest h ∙ sym (nil-append (t ⁀ rest));
  result = replace_first-here t r s rest h ∙ sym (nil-append (r ⁀ rest));
  first = λ b a e. omega (arith, length-nil);
}

-- A place behind the first character.
tail_place :
    (t : String) (c : Char) (s b a : String)
    → strip_prefix? t (c ∷ s) ≡ none
    → c ∷ s ≡ b ⁀ (t ⁀ a)
    → (d : Char) × (b' : String) × (b ≡ d ∷ b') × (s ≡ b' ⁀ (t ⁀ a))
tail_place t c s [] a h e =
    cc (h, ap (strip_prefix? t) (e ∙ nil-append (t ⁀ a)) ∙ strip_prefix?-append t a)
tail_place t c s (d ∷ b) a h e = (d, b, refl, tail-eq_of_cons-eq (e ∙ cons-append d b (t ⁀ a)))

there :
    (t r : String) (c : Char) (s : String)
    → strip_prefix? t (c ∷ s) ≡ none
    → Replaces t r s
    → Replaces t r (c ∷ s)
there t r c s h rest = record {
  before = c ∷ rest.before;
  after = rest.after;
  found = ap (λ (x : String). c ∷ x) rest.found ∙ sym (cons-append c rest.before (t ⁀ rest.after));
  result =
      replace_first-there t r c s h
      ∙ ap (λ (x : String). c ∷ x) rest.result
      ∙ sym (cons-append c rest.before (r ⁀ rest.after));
  first = λ b a e.
      let (d, b', shape, place) = tail_place t c s b a h e in
      rw shape (omega (arith, rest.first b' a place, length-cons c rest.before, length-cons d b'));
}

-- A text that is found is replaced at its first place.
pub replace_first-Replaces : (t r s : String) → contains_text t s ≡ true → Replaces t r s
unfolding contains_text
replace_first-Replaces t r [] h = elim (Option-cases (strip_prefix? t [])) [
  | inl e ↦ cc (rw e at h)
  | inr (rest, e) ↦ here t r [] rest e
]
replace_first-Replaces t r (c ∷ s) h = elim (Option-cases (strip_prefix? t (c ∷ s))) [
  | inl e ↦ there t r c s e (replace_first-Replaces t r s (rw e at h))
  | inr (rest, e) ↦ here t r (c ∷ s) rest e
]

-- A text that is not found has no place.
pub contains_text-absent : (t s b a : String) → contains_text t s ≡ false → s ≢ b ⁀ (t ⁀ a)
unfolding contains_text
contains_text-absent t [] [] a h e =
    let place = ap (strip_prefix? t) (e ∙ nil-append (t ⁀ a)) ∙ strip_prefix?-append t a in
    cc (rw place at h)
contains_text-absent t [] (d ∷ b) a h e = nil≢cons (e ∙ cons-append d b (t ⁀ a))
contains_text-absent t (c ∷ s) b a h e = elim (Option-cases (strip_prefix? t (c ∷ s))) [
  | inl none_here ↦
      let (d, b', shape, place) = tail_place t c s b a none_here e in
      contains_text-absent t s b' a (rw none_here at h) place
  | inr (rest, found) ↦ cc (rw found at h)
]
