-- ===== src/Contracts/Paths.antt =====
-- contracts.py: `looks_like_test`, with `pathlib.PurePosixPath.parts` and `.name` as it uses them.
use autonomous_software_engi.Prelude.{
  if◌then◌else◌, or_else, select, last?, String, Bool, not, ◌&&◌, ◌||◌, List, ◌∷◌, str_eq,
}
use autonomous_software_engi.Prelude.Text.{split, starts_with, ends_with, mem}

-- The components between the slashes; empty ones and `.` are dropped.
unfoldable pub segments : String → List String
segments p = select (λ s. not (str_eq s "") && not (str_eq s ".")) (split b'/' p)

-- A leading slash is a part of its own; exactly two of them are kept as they stand.
unfoldable pub parts : String → List String
unfolding segments
parts p =
    if starts_with p "///"
    then "/" ∷ segments p
    else if starts_with p "//"
    then "//" ∷ segments p
    else if starts_with p "/"
    then "/" ∷ segments p
    else segments p

unfoldable pub path_name : String → String
unfolding segments
path_name p = or_else (last? (segments p)) ""

unfoldable pub looks_like_test : String → Bool
looks_like_test p =
    let name = path_name p in
    mem "tests" (parts p)
    || mem "test" (parts p)
    || starts_with name "test_"
    || ends_with name "_test.py"
    || str_eq name "conftest.py"
