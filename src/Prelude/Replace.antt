-- ===== src/Prelude/Replace.antt =====
-- `str.count` and `str.replace` with a limit of one, for a pattern that is not empty.
use Prim.Native.Nat.{ℕ, zero, suc, ◌+◌, ◌-◌}
use Prim.Native.Char.{code}
use Prim.Native.String.{String}
use mathlib.Core.Path.{◌≡◌, refl, sym, ap, ◌∙◌}
use mathlib.Core.Bool.{false≢true, Bool, true, false}
use native.Mathlib.Omega.{arith}
use text.Mathlib.TextEquality.{Char-path}
use text.Mathlib.TextLemmas.{cons-append, nil-append}
use autonomous_software_engi.Prelude.Tests.{if◌then◌else◌}
use autonomous_software_engi.Prelude.Text.{◌+s◌, starts_with, drop_chars}

-- `len(s)`
unfoldable pub text_length : String → ℕ
text_length String.[] = 0
text_length (String.◌∷◌ c s) = suc (text_length s)

-- The occurrences that do not overlap, from the left; `skip` characters belong to the last one.
occurrences : String → ℕ → String → ℕ
occurrences p skip String.[] = 0
occurrences p (suc skip) (String.◌∷◌ c s) = occurrences p skip s
occurrences p zero (String.◌∷◌ c s) =
    let hit = starts_with (String.◌∷◌ c s) p in
    (if hit then 1 else 0) + occurrences p (if hit then text_length p - 1 else 0) s

-- `s.count(p)`
unfoldable pub count_text : String → String → ℕ
unfolding occurrences
count_text s p = occurrences p 0 s

-- `s.replace(p, r, 1)`
unfoldable pub replace_first : String → String → String → String
replace_first p r String.[] = ""
replace_first p r (String.◌∷◌ c s) =
    let rest = replace_first p r s in
    if starts_with (String.◌∷◌ c s) p
    then r +s drop_chars (text_length p) (String.◌∷◌ c s)
    else String.◌∷◌ c rest

pub starts_with-append :
    (s p : String) → starts_with s p ≡ true → s ≡ p +s drop_chars (text_length p) s
unfolding starts_with drop_chars text_length
starts_with-append s String.[] h = sym (nil-append s)
starts_with-append String.[] (String.◌∷◌ c p) h = absurd (false≢true h)
starts_with-append (String.◌∷◌ d s) (String.◌∷◌ c p) h =
    let head : code d ≡ code c = ground arith in
    let rest = starts_with-append s p (ground arith) in
    ap (λ x. String.◌∷◌ x s) (Char-path d c head)
    ∙ ap (String.◌∷◌ c) rest
    ∙ sym (cons-append c p (drop_chars (text_length p) s))

-- What the edit of one occurrence is: the text around it stays.
pub record Replaced (p r s t : String) : Type 0 where
  pub before : String
  pub after : String
  pub was : s ≡ before +s p +s after
  pub now : t ≡ before +s r +s after

-- A text with an occurrence is changed at the first one alone.
pub replace_first-Replaced :
    (s p r : String) → (count_text s p ≡ 0 → ⊥) → Replaced p r s (replace_first p r s)
unfolding count_text occurrences replace_first
replace_first-Replaced String.[] p r h = absurd (h refl)
replace_first-Replaced (String.◌∷◌ c s) p r h =
    by_hit (starts_with (String.◌∷◌ c s) p) refl (replace_first-Replaced s p r)
  where
    by_hit :
        (b : Bool)
        → starts_with (String.◌∷◌ c s) p ≡ b
        → ((count_text s p ≡ 0 → ⊥) → Replaced p r s (replace_first p r s))
        → Replaced p r (String.◌∷◌ c s) (replace_first p r (String.◌∷◌ c s))
    by_hit true e ih = rw e (record {
      before = "";
      after = drop_chars (text_length p) (String.◌∷◌ c s);
      was = starts_with-append (String.◌∷◌ c s) p e ∙ sym (nil-append _);
      now = sym (nil-append _);
    })
    by_hit false e ih =
        let ne : count_text s p ≡ 0 → ⊥ = λ z. h (ground arith) in
        let inner = ih ne in
        rw e (record {
          before = String.◌∷◌ c inner.before;
          after = inner.after;
          was = ap (String.◌∷◌ c) inner.was ∙ sym (cons-append c inner.before _);
          now = ap (String.◌∷◌ c) inner.now ∙ sym (cons-append c inner.before _);
        })
