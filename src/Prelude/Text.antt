-- ===== src/Prelude/Text.antt =====
-- Python's `str` operations that the modelled code calls, on native texts, by their characters.
use Prim.Native.Nat.{ℕ, zero, suc, ◌/◌, ◌%◌}
use Prim.Native.Char.{Char, code}
use Prim.Native.String.{String}
use Prim.Native.String
use text.Mathlib.Text.{◌==◌ as str_eq, is_lt}
use mathlib.Core.Bool.{Bool, true, false, ◌&&◌, ◌||◌}
use mathlib.Core.List.{List, [], ◌∷◌}
use autonomous_software_engi.Prelude.Tests.{ltb, leb, ◌==◌, if◌then◌else◌}

infixr 66 ◌+s◌
-- Concatenation of texts, as in an f-string.
abbrev pub ◌+s◌ : String → String → String
a +s b = String.◌++◌ a b

-- `sep.join(parts)`
unfoldable pub join : String → List String → String
join sep [] = ""
join sep (x ∷ []) = x
join sep (x ∷ y ∷ rest) = x +s sep +s join sep (y ∷ rest)

-- `item in items` for texts.
unfoldable pub mem : String → List String → Bool
mem s [] = false
mem s (x ∷ xs) = str_eq x s || mem s xs

-- `str(n)` of a natural number; there are at most `n + 1` digits.
digit : ℕ → String
digit d =
    if d == 0
    then "0"
    else if d == 1
    then "1"
    else if d == 2
    then "2"
    else if d == 3
    then "3"
    else if d == 4
    then "4"
    else if d == 5
    then "5"
    else if d == 6
    then "6"
    else if d == 7
    then "7"
    else if d == 8
    then "8"
    else "9"

digits_from : ℕ → ℕ → String
digits_from zero n = ""
digits_from (suc f) n =
    let rest = digits_from f (n / 10) in if ltb n 10 then digit n else rest +s digit (n % 10)

unfoldable pub decimal : ℕ → String
unfolding digit digits_from
decimal n = digits_from (suc n) n

-- `s.startswith(p)` and `s.endswith(p)`.
unfoldable pub starts_with : String → String → Bool
starts_with s String.[] = true
starts_with String.[] (String.◌∷◌ c p) = false
starts_with (String.◌∷◌ d s) (String.◌∷◌ c p) = code d == code c && starts_with s p

unfoldable pub ends_with : String → String → Bool
ends_with String.[] p = str_eq "" p
ends_with (String.◌∷◌ c s) p = str_eq (String.◌∷◌ c s) p || ends_with s p

-- `p in s`
unfoldable pub contains : String → String → Bool
unfolding starts_with
contains String.[] p = str_eq "" p
contains (String.◌∷◌ c s) p = starts_with (String.◌∷◌ c s) p || contains s p

-- `s[n:]`
unfoldable pub drop_chars : ℕ → String → String
drop_chars zero s = s
drop_chars (suc n) String.[] = ""
drop_chars (suc n) (String.◌∷◌ c s) = drop_chars n s

-- `s[:n]`
unfoldable pub take_chars : ℕ → String → String
take_chars zero s = ""
take_chars (suc n) String.[] = ""
take_chars (suc n) (String.◌∷◌ c s) = String.◌∷◌ c (take_chars n s)

abbrev push_first : Char → List String → List String
push_first c [] = String.◌∷◌ c "" ∷ []
push_first c (x ∷ xs) = String.◌∷◌ c x ∷ xs

-- `s.split(sep)` for a separator of one character, by its code point.
unfoldable pub split : ℕ → String → List String
split sep String.[] = "" ∷ []
split sep (String.◌∷◌ c s) =
    let rest = split sep s in if code c == sep then "" ∷ rest else push_first c rest

-- The line boundaries of `str.splitlines`.
is_line_break : ℕ → Bool
is_line_break n =
    (leb 10 n && leb n 13) || (leb 28 n && leb n 30) || n == 133 || n == 8232 || n == 8233

abbrev begins_lf : String → Bool
begins_lf String.[] = false
begins_lf (String.◌∷◌ c s) = code c == 10

-- `s.splitlines()`; a carriage return before a line feed is one boundary with it.
unfoldable pub splitlines : String → List String
unfolding is_line_break
splitlines String.[] = []
splitlines (String.◌∷◌ c s) =
    let rest = splitlines s in
    if code c == 13 && begins_lf s
    then rest
    else if is_line_break (code c)
    then "" ∷ rest
    else push_first c rest

-- What text mode reads: a carriage return, alone or with the line feed after it, is a line feed.
unfoldable pub universal_newlines : String → String
universal_newlines String.[] = ""
universal_newlines (String.◌∷◌ c s) =
    let rest = universal_newlines s in
    if code c == 13 && begins_lf s
    then rest
    else if code c == 13
    then "\n" +s rest
    else String.◌∷◌ c rest

-- White space of `str.strip` below U+0100, and the wider spaces of Unicode.
is_space : ℕ → Bool
is_space n =
    (leb 9 n && leb n 13)
    || (leb 28 n && leb n 32)
    || n == 133
    || n == 160
    || n == 5760
    || (leb 8192 n && leb n 8202)
    || n == 8232
    || n == 8233
    || n == 8239
    || n == 8287
    || n == 12288

lstrip : String → String
unfolding is_space
lstrip String.[] = ""
lstrip (String.◌∷◌ c s) = let rest = lstrip s in if is_space (code c) then rest else String.◌∷◌ c s

rstrip : String → String
unfolding is_space
rstrip String.[] = ""
rstrip (String.◌∷◌ c s) =
    let rest = rstrip s in if is_space (code c) && str_eq rest "" then "" else String.◌∷◌ c rest

-- `s.strip()`
unfoldable pub strip : String → String
unfolding lstrip rstrip
strip s = rstrip (lstrip s)

split_spaces : String → List String
unfolding is_space
split_spaces String.[] = "" ∷ []
split_spaces (String.◌∷◌ c s) =
    let rest = split_spaces s in if is_space (code c) then "" ∷ rest else push_first c rest

drop_blank : List String → List String
drop_blank [] = []
drop_blank (x ∷ xs) = let rest = drop_blank xs in if str_eq x "" then rest else x ∷ rest

-- `s.split()`
unfoldable pub words : String → List String
unfolding split_spaces drop_blank
words s = drop_blank (split_spaces s)

-- `sorted(set(xs))`: insertion of each text at its place, once.
unfoldable pub insert_sorted : String → List String → List String
insert_sorted s [] = s ∷ []
insert_sorted s (x ∷ xs) =
    if str_eq s x
    then x ∷ xs
    else if is_lt (String.compare s x)
    then s ∷ x ∷ xs
    else x ∷ insert_sorted s xs

unfoldable pub sorted_set : List String → List String
unfolding insert_sorted
sorted_set [] = []
sorted_set (x ∷ xs) = insert_sorted x (sorted_set xs)

-- The characters of a text, each a text of its own.
unfoldable pub chars : String → List String
chars String.[] = []
chars (String.◌∷◌ c s) = String.◌∷◌ c "" ∷ chars s
