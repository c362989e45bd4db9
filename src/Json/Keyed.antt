-- ===== src/Json/Keyed.antt =====
-- The objects of `canonical_json` in packages/schema/aro_schema/digests.py whose keys are known: equal
-- texts come from equal values under the keys.
use Prim.Native.String.{◌∷◌ as cons_text}
use text.Mathlib.TextLemmas.{append_assoc, append_cancel_left}
use agent_runtime_observator.Prelude.{◌≡◌, refl, sym, ap, ◌∙◌, String, List, [], ◌∷◌, map}
use agent_runtime_observator.Text.{◌⁀◌, char-append, join}
use agent_runtime_observator.Text.Decimal.{is_digit}
use agent_runtime_observator.Json.{Value, canonical_json, pair_text, quote}
use agent_runtime_observator.Json.Injective.{Cell, value_of, Stops, canonical_json_inj}

abbrev pub Pairs : Type 0
Pairs = List (String × Cell)

abbrev pub SameKeys : Pairs → Pairs → Type 0
SameKeys [] [] = Unit
SameKeys (p ∷ ps) (q ∷ qs) = (p.0 ≡ q.0) × SameKeys ps qs
SameKeys _ _ = ⊥

texts : Pairs → List String
unfolding pair_text
texts [] = []
texts ((k, c) ∷ ps) = pair_text (k, canonical_json (value_of c)) ∷ texts ps

-- What stands behind the first pair of an object.
behind : Pairs → String → String
unfolding join texts
behind [] z = z
behind (p ∷ ps) z = cons_text "," (join "," (texts (p ∷ ps)) ⁀ z)

first-pair :
    (k : String) (c : Cell) (ps : Pairs) (z : String)
    → join "," (texts ((k, c) ∷ ps)) ⁀ z ≡ quote k ⁀ ":" ⁀ canonical_json (value_of c) ⁀ behind ps z
unfolding behind
first-pair k c [] z =
    append_assoc (quote k) (":" ⁀ canonical_json (value_of c)) z
    ∙ ap (λ s. quote k ⁀ s) (append_assoc ":" (canonical_json (value_of c)) z)
first-pair k c (p ∷ ps) z =
    append_assoc (pair_text (k, canonical_json (value_of c))) ("," ⁀ join "," (texts (p ∷ ps))) z
    ∙ ap (λ s. pair_text (k, canonical_json (value_of c)) ⁀ s)
        (append_assoc "," (join "," (texts (p ∷ ps))) z
          ∙ char-append "," (join "," (texts (p ∷ ps)) ⁀ z))
    ∙ append_assoc (quote k) (":" ⁀ canonical_json (value_of c)) (behind (p ∷ ps) z)
    ∙ ap (λ s. quote k ⁀ s) (append_assoc ":" (canonical_json (value_of c)) (behind (p ∷ ps) z))

behind-Stops : (ps : Pairs) (x : String) → Stops (behind ps (cons_text "}" x))
unfolding behind is_digit
behind-Stops [] x = refl
behind-Stops (p ∷ ps) x = refl

-- Two tails of objects, where it is known of the objects.
behind_inj :
    (ps qs : Pairs) (x y : String)
    → SameKeys ps qs
    → (join "," (texts ps) ⁀ cons_text "}" x ≡ join "," (texts qs) ⁀ cons_text "}" y
        → map (λ p. p.1) ps ≡ map (λ p. p.1) qs)
    → behind ps (cons_text "}" x) ≡ behind qs (cons_text "}" y)
    → map (λ p. p.1) ps ≡ map (λ p. p.1) qs
unfolding behind
behind_inj [] [] x y keys objects h = refl
behind_inj [] (q ∷ qs) x y keys objects h = elim keys [ ]
behind_inj (p ∷ ps) [] x y keys objects h = elim keys [ ]
behind_inj (p ∷ ps) (q ∷ qs) x y keys objects h = objects (cc h)

pairs_inj :
    (ps qs : Pairs) (x y : String)
    → SameKeys ps qs
    → join "," (texts ps) ⁀ cons_text "}" x ≡ join "," (texts qs) ⁀ cons_text "}" y
    → map (λ p. p.1) ps ≡ map (λ p. p.1) qs
unfolding behind
pairs_inj [] [] x y keys h = refl
pairs_inj [] (_ ∷ qs) x y keys h = elim keys [ ]
pairs_inj ((j, c) ∷ ps) [] x y keys h = elim keys [ ]
pairs_inj ((j, c) ∷ ps) ((k, d) ∷ qs) x y (key, keys) h =
    let left = behind ps (cons_text "}" x) in
    let right = behind qs (cons_text "}" y) in
    let start : quote k ⁀ ":" ⁀ canonical_json (value_of c) ⁀ left
        ≡ quote k ⁀ ":" ⁀ canonical_json (value_of d) ⁀ right =
      ap (λ i. quote i ⁀ ":" ⁀ canonical_json (value_of c) ⁀ left) (sym key)
      ∙ sym (first-pair j c ps (cons_text "}" x))
      ∙ h
      ∙ first-pair k d qs (cons_text "}" y) in
    let (same, ends) = canonical_json_inj c d left right (behind-Stops ps x) (behind-Stops qs y) (
      append_cancel_left ":" (canonical_json (value_of c) ⁀ left)
        (canonical_json (value_of d) ⁀ right) (append_cancel_left (quote k) _ _ start)) in
    ap (λ e. e ∷ map (λ (p : String × Cell). p.1) ps) same
    ∙ ap (λ es. d ∷ es) (behind_inj ps qs x y keys (pairs_inj ps qs x y keys) ends)

-- The text of an object whose pairs are in order.
pub object_text : Pairs → String
unfolding texts
object_text ps = "{" ⁀ join "," (texts ps) ⁀ "}"

value_text : String × Value → String
unfolding pair_text
value_text p = pair_text (p.0, canonical_json p.1)

-- The same over values.
unfoldable pub values_text : List (String × Value) → String
unfolding value_text join
values_text vs = "{" ⁀ join "," (map value_text vs) ⁀ "}"

pub object_text-values :
    (ps : Pairs) → object_text ps ≡ values_text (map (λ p. (p.0, value_of p.1)) ps)
unfolding object_text values_text
object_text-values ps = ap (λ ts. "{" ⁀ join "," ts ⁀ "}") (same ps)
  where
    same : (ps : Pairs) → texts ps ≡ map value_text (map (λ p. (p.0, value_of p.1)) ps)
    same [] = refl
    same ((k, c) ∷ ps) = ap (λ ts. value_text (k, value_of c) ∷ ts) (same ps)

pub object_text_inj :
    (ps qs : Pairs)
    → SameKeys ps qs
    → object_text ps ≡ object_text qs
    → map (λ p. p.1) ps ≡ map (λ p. p.1) qs
unfolding object_text
object_text_inj ps qs keys h = pairs_inj ps qs "" "" keys (append_cancel_left "{" _ _ h)
