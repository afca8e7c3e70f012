-- ===== src/Knowledge/Windows.antt =====
-- The windows of a span of lines: they follow one another, fit, and hold every line.
use autonomous_software_engi.Prelude.{
  ltb, leb, if◌then◌else◌, ltb→lt, leb→le, ℕ, zero, suc, ◌+◌, ◌-◌, ◌/◌, ◌≤◌, ◌<◌, String, ◌≡◌, refl,
  ◌⊎◌, inl, inr, Bool, true, false, List, [], ◌∷◌, arith,
}
use autonomous_software_engi.Knowledge.Chunks.{
  Chunk, shrink, lines_text, estimate_tokens, window_lines, window_limit, windows_from, windows,
}

-- The windows lie end to end from one line to the last, each with a line at least and with at most
-- `window_lines`, with the text of its lines, and within the limit or of one line.
unfoldable pub Tiles : List String → ℕ → ℕ → ℕ → List Chunk → Type 0
Tiles lines max_tokens from end [] = end < from
Tiles lines max_tokens from end (c ∷ cs) =
    (c.start_line ≡ from)
    × (from ≤ c.end_line)
    × (c.end_line ≤ end)
    × (c.end_line < from + window_lines)
    × ((c.text ≡ lines_text lines from c.end_line)
        × ((estimate_tokens c.text ≤ max_tokens) ⊎ (c.end_line ≡ from))
        × Tiles lines max_tokens (c.end_line + 1) end cs)

-- Where a shrunken window ends.
record Shrunk (lines : List String) (max_tokens cursor window_end end : ℕ) : Type 0 where
  some_line : cursor ≤ end
  not_longer : end ≤ window_end
  fits : (estimate_tokens (lines_text lines cursor end) ≤ max_tokens) ⊎ (end ≡ cursor)

halved : (c w : ℕ) → c < w → (c ≤ c + (w - c) / 2) × (c + (w - c) / 2 < w)
halved c w h = (omega arith, omega (arith, h))

shrink-Shrunk :
    (lines : List String) (max_tokens cursor fuel window_end : ℕ)
    → cursor ≤ window_end
    → window_end - cursor ≤ fuel
    → Shrunk lines max_tokens cursor window_end (shrink lines max_tokens cursor fuel window_end)
unfolding shrink
shrink-Shrunk lines max_tokens cursor zero window_end h f = record {
  some_line = h;
  not_longer = omega arith;
  fits = inr (omega (arith, h, f));
}
shrink-Shrunk lines max_tokens cursor (suc fuel) window_end h f =
    by_tests (ltb max_tokens (estimate_tokens (lines_text lines cursor window_end)))
      (ltb cursor window_end)
      (λ less.
        shrink-Shrunk lines max_tokens cursor fuel (cursor + (window_end - cursor) / 2)
          (halved cursor window_end less).0 (omega (arith, (halved cursor window_end less).1, f)))
      refl refl
  where
    by_tests :
        (b d : Bool)
        → (cursor < window_end
            → Shrunk lines max_tokens cursor
                (cursor + (window_end - cursor) / 2)
                (shrink lines max_tokens cursor fuel (cursor + (window_end - cursor) / 2)))
        → ltb max_tokens (estimate_tokens (lines_text lines cursor window_end)) ≡ b
        → ltb cursor window_end ≡ d
        → Shrunk lines max_tokens cursor window_end
            (shrink lines max_tokens cursor (suc fuel) window_end)
    by_tests false d ih b_is d_is =
        rw b_is
          (record { some_line = h; not_longer = omega arith; fits = inl (ground (arith, b_is)) })
    by_tests true false ih b_is d_is =
        rw (b_is, d_is)
          (record { some_line = h; not_longer = omega arith; fits = inr (ground (arith, d_is, h)) })
    by_tests true true ih b_is d_is =
        let less : cursor < window_end = ground (arith, d_is) in
        let half = halved cursor window_end less in
        rw (b_is, d_is)
          (record {
            some_line = (ih less).some_line;
            not_longer = omega (arith, (ih less).not_longer, half.1);
            fits = (ih less).fits;
          })

window_limit-bounds :
    (end cursor : ℕ)
    → cursor ≤ end
    → (cursor ≤ window_limit end cursor)
      × (window_limit end cursor < cursor + window_lines)
      × (window_limit end cursor ≤ end)
window_limit-bounds end cursor h = by_test (ltb (cursor + 59) end) refl
  where
    by_test :
        (b : Bool)
        → ltb (cursor + 59) end ≡ b
        → (cursor ≤ (if b then cursor + 59 else end))
          × ((if b then cursor + 59 else end) < cursor + window_lines)
          × ((if b then cursor + 59 else end) ≤ end)
    by_test true e = (omega arith, omega arith, omega (arith, ltb→lt (cursor + 59) end e))
    by_test false e = (h, ground (arith, e), omega arith)

windows_from-Tiles :
    (path : String) (lines : List String) (max_tokens end fuel cursor : ℕ)
    → end + 1 - cursor ≤ fuel
    → Tiles lines max_tokens cursor end (windows_from path lines max_tokens end fuel cursor)
unfolding windows_from Tiles
windows_from-Tiles path lines max_tokens end zero cursor f = omega (arith, f)
windows_from-Tiles path lines max_tokens end (suc fuel) cursor f =
    by_test (leb cursor end)
      (shrink-Shrunk lines max_tokens cursor window_lines (window_limit end cursor))
      (λ next. windows_from-Tiles path lines max_tokens end fuel (next + 1)) refl
  where
    by_test :
        (b : Bool)
        → (cursor ≤ window_limit end cursor
            → window_limit end cursor - cursor ≤ window_lines
            → Shrunk lines max_tokens cursor
                (window_limit end cursor)
                (shrink lines max_tokens cursor window_lines (window_limit end cursor)))
        → ((next : ℕ)
            → end + 1 - (next + 1) ≤ fuel
            → Tiles lines max_tokens
                (next + 1)
                end
                (windows_from path lines max_tokens end fuel (next + 1)))
        → leb cursor end ≡ b
        → Tiles lines max_tokens cursor end
            (windows_from path lines max_tokens end (suc fuel) cursor)
    by_test false shrunk rest e = rw e (ground (arith, e))
    by_test true shrunk rest e =
        let le : cursor ≤ end = leb→le cursor end e in
        let (low, span, high) = window_limit-bounds end cursor le in
        let s = shrunk low (omega (arith, span)) in
        rw e (
          refl,
          s.some_line,
          omega (arith, s.not_longer, high),
          omega (arith, s.not_longer, span),
          (refl, s.fits, rest _ (omega (arith, f, s.some_line))),
        )

-- The windows of a span lie end to end over its lines, each within the limit of tokens or of one
-- line; there is enough fuel for all of them.
pub windows-Tiles :
    (path : String) (lines : List String) (start end max_tokens : ℕ)
    → Tiles lines max_tokens start end (windows path lines start end max_tokens)
unfolding windows
windows-Tiles path lines start end max_tokens =
    windows_from-Tiles path lines max_tokens end (end + 1 - start) start (omega arith)
