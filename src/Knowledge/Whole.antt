-- ===== src/Knowledge/Whole.antt =====
-- No line is lost: the texts of the windows are the text of their span.
use autonomous_software_engi.Prelude.{
  length, take, drop, ℕ, zero, suc, ◌+◌, ◌-◌, ◌≤◌, ◌<◌, String, ◌≡◌, refl, sym, ap, ◌∙◌, List, [],
  ◌∷◌, ◌++◌, map, arith,
}
use text.Mathlib.TextLemmas.{append_assoc}
use autonomous_software_engi.Prelude.Text.{◌+s◌, join}
use autonomous_software_engi.Knowledge.Chunks.{Chunk, lines_text, windows}
use autonomous_software_engi.Knowledge.Windows.{Tiles, windows-Tiles}

join-append :
    (sep : String) (xs ys : List String)
    → 0 < length xs
    → 0 < length ys
    → join sep (xs ++ ys) ≡ join sep xs +s sep +s join sep ys
unfolding join
join-append sep [] ys h k = absurd (omega (arith, h))
join-append sep (x ∷ xs) [] h k = absurd (omega (arith, k))
join-append sep (x ∷ []) (y ∷ ys) h k = refl
join-append sep (x ∷ x' ∷ xs) (y ∷ ys) h k =
    let rest = join-append sep (x' ∷ xs) (y ∷ ys) (omega arith) k in
    ap (λ r. x +s sep +s r) rest
    ∙ sym (
        append_assoc x (sep +s join sep (x' ∷ xs)) (sep +s join sep (y ∷ ys))
        ∙ ap (◌+s◌ x) (append_assoc sep (join sep (x' ∷ xs)) (sep +s join sep (y ∷ ys))))

-- A slice and the one that follows it.
slice-split :
    (lines : List String) (a b c : ℕ)
    → a ≤ b
    → b ≤ c
    → drop a (take c lines) ≡ drop a (take b lines) ++ drop b (take c lines)
slice-split lines zero zero c h k = refl
slice-split lines zero (suc b) zero h k = absurd (omega (arith, k))
slice-split [] zero (suc b) (suc c) h k = refl
slice-split (x ∷ lines) zero (suc b) (suc c) h k =
    ap (◌∷◌ x) (slice-split lines zero b c (omega arith) (omega (arith, k)))
slice-split lines (suc a) zero c h k = absurd (omega (arith, h))
slice-split lines (suc a) (suc b) zero h k = absurd (omega (arith, k))
slice-split [] (suc a) (suc b) (suc c) h k = refl
slice-split (x ∷ lines) (suc a) (suc b) (suc c) h k =
    slice-split lines a b c (omega (arith, h)) (omega (arith, k))

slice-nonempty :
    (lines : List String) (a b : ℕ) → a < b → b ≤ length lines → 0 < length (drop a (take b lines))
slice-nonempty lines a zero h k = absurd (omega (arith, h))
slice-nonempty [] a (suc b) h k = absurd (omega (arith, k))
slice-nonempty (x ∷ lines) zero (suc b) h k = omega arith
slice-nonempty (x ∷ lines) (suc a) (suc b) h k =
    slice-nonempty lines a b (omega (arith, h)) (omega (arith, k))

lines_text-split :
    (lines : List String) (a b c : ℕ)
    → 1 ≤ a
    → a ≤ b
    → b < c
    → c ≤ length lines
    → lines_text lines a c ≡ lines_text lines a b +s "\n" +s lines_text lines (b + 1) c
unfolding lines_text
lines_text-split lines a b c one h k l =
    let next : (b + 1) - 1 ≡ b = omega arith in
    rw (next, slice-split lines (a - 1) b c (omega (arith, h)) (omega (arith, k)))
      (join-append "\n" (drop (a - 1) (take b lines)) (drop b (take c lines))
        (slice-nonempty lines (a - 1) b (omega (arith, one, h)) (omega (arith, k, l)))
        (slice-nonempty lines b c k l))

abbrev pub texts : List Chunk → List String
texts chunks = map (λ (c : Chunk). c.text) chunks

Tiles-text :
    (lines : List String) (max_tokens from end : ℕ) (chunks : List Chunk)
    → Tiles lines max_tokens from end chunks
    → 1 ≤ from
    → from ≤ end
    → end ≤ length lines
    → join "\n" (texts chunks) ≡ lines_text lines from end
unfolding Tiles join
Tiles-text lines max_tokens from end [] t one h l = absurd (omega (arith, t, h))
Tiles-text lines max_tokens from end (c ∷ []) t one h l =
    let at_end : c.end_line ≡ end = omega (arith, t.2, t.4.2) in
    t.4.0 ∙ ap (lines_text lines from) at_end
Tiles-text lines max_tokens from end (c ∷ d ∷ cs) t one h l =
    let later : c.end_line < end = omega (arith, t.4.2.1, t.4.2.2) in
    let rest =
      Tiles-text lines max_tokens (c.end_line + 1) end (d ∷ cs) t.4.2 (omega arith)
        (omega (arith, later)) l in
    ap (λ x. x +s "\n" +s join "\n" (texts (d ∷ cs))) t.4.0
    ∙ ap (λ r. lines_text lines from c.end_line +s "\n" +s r) rest
    ∙ sym (lines_text-split lines from c.end_line end one t.1 later l)

-- For a span of lines that exist, the texts of its windows, put together again, are the text of the
-- span.
pub windows-text :
    (path : String) (lines : List String) (start end max_tokens : ℕ)
    → 1 ≤ start
    → start ≤ end
    → end ≤ length lines
    → join "\n" (texts (windows path lines start end max_tokens)) ≡ lines_text lines start end
windows-text path lines start end max_tokens =
    Tiles-text lines max_tokens start end (windows path lines start end max_tokens)
      (windows-Tiles path lines start end max_tokens)
