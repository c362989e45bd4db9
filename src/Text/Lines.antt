-- ===== src/Text/Lines.antt =====
-- `str.splitlines` on a text of whole lines, and lines that are not blank.
use Prim.Native.String.{[], ◌∷◌}
use text.Mathlib.TextLemmas.{cons-append, nil-append, append-nil, append_assoc}
use agent_runtime_observator.Prelude.{◌≡◌, refl, sym, ap, ◌∙◌, Char, false, String, List}
use agent_runtime_observator.Text.{
  ◌⁀◌, is_empty, is_space, strip, is_line_end, lines_from, split_lines, char-append,
}

-- No character of the text ends a line for `str.splitlines`.
abbrev pub IsOneLine : String → Type 0
IsOneLine [] = Unit
IsOneLine (c ∷ s) = (is_line_end c ≡ false) × IsOneLine s

lines_from-char :
    (line : String) (c : Char) (s : String)
    → is_line_end c ≡ false
    → lines_from line false (c ∷ s) ≡ lines_from (line ⁀ (c ∷ [])) false s
unfolding lines_from
lines_from-char line c s e = rw e refl

lines_from-line :
    (line s rest : String)
    → IsOneLine s
    → lines_from line false (s ⁀ ("\n" ⁀ rest)) ≡ List.◌∷◌ (line ⁀ s) (split_lines rest)
unfolding lines_from split_lines is_line_end
lines_from-line line [] rest h =
    ap (lines_from line false) (nil-append ("\n" ⁀ rest) ∙ char-append "\n" rest)
    ∙ ap (λ t. List.◌∷◌ t (lines_from [] false rest)) (sym (append-nil line))
lines_from-line line (c ∷ s) rest (e, h) =
    ap (lines_from line false) (cons-append c s ("\n" ⁀ rest))
    ∙ lines_from-char line c (s ⁀ ("\n" ⁀ rest)) e
    ∙ lines_from-line (line ⁀ (c ∷ [])) s rest h
    ∙ ap (λ t. List.◌∷◌ t (split_lines rest))
        (append_assoc line (c ∷ []) s ∙ ap (λ t. line ⁀ t) (char-append c s))

pub split_lines-nil : split_lines [] ≡ List.[]
unfolding lines_from split_lines is_empty
split_lines-nil = refl

pub split_lines-line :
    (s rest : String)
    → IsOneLine s
    → split_lines (s ⁀ ("\n" ⁀ rest)) ≡ List.◌∷◌ s (split_lines rest)
unfolding split_lines
split_lines-line s rest h =
    lines_from-line [] s rest h ∙ ap (λ t. List.◌∷◌ t (split_lines rest)) (nil-append s)

-- A text that begins with a brace is not blank.
pub strip-brace : (s : String) → is_empty (strip ("{" ⁀ s)) ≡ false
unfolding strip is_empty is_space
strip-brace s = ap (λ t. is_empty (strip t)) (char-append "{" s)
