-- ===== src/Knowledge/Chunks.antt =====
-- repo_intelligence/chunks.py. Lines are numbered from 1, and `lines[a - 1 : b]` is the slice from a
-- to b, both included. A chunk's digest is left out.
use autonomous_software_engi.Prelude.{
  ltb, leb, if◌then◌else◌, length, take, drop, select, is_empty, ℕ, zero, suc, ◌+◌, ◌-◌, ◌/◌,
  String, Bool, true, false, not, ◌&&◌, ◌||◌, Option, none, some, List, [], ◌∷◌, ◌++◌, str_eq,
}
use autonomous_software_engi.Prelude.Text.{◌+s◌, join, decimal, splitlines, strip}
use autonomous_software_engi.Prelude.Replace.{text_length}
use autonomous_software_engi.Prelude.Sorting.{sort_by}

-- `Definition` of parsers.py, with the fields that are read here.
pub record Definition : Type 0 where
  pub path : String
  pub name : String
  pub start_line : ℕ
  pub end_line : ℕ
  pub docstring : String
  pub parent : Option String

-- `FileRecord` of indexer.py, likewise.
pub record FileRecord : Type 0 where
  pub path : String
  pub text : String
  pub definitions : List Definition

pub data ChunkKind : Type 0 where
  definition header window : ChunkKind

pub record Chunk : Type 0 where
  pub id : String
  pub path : String
  pub symbol : Option String
  pub kind : ChunkKind
  pub start_line : ℕ
  pub end_line : ℕ
  pub text : String
  pub docstring : String
  pub tokens : ℕ

abbrev pub default_max_tokens : ℕ
default_max_tokens = 1_500

abbrev pub window_lines : ℕ
window_lines = 60

unfoldable pub estimate_tokens : String → ℕ
estimate_tokens text = let quarter = text_length text / 4 in if leb 1 quarter then quarter else 1

-- `"\n".join(lines[start - 1 : end])`
unfoldable pub lines_text : List String → ℕ → ℕ → String
lines_text lines start end = join "\n" (drop (start - 1) (take end lines))

-- `_make`
unfoldable pub make : String → ChunkKind → ℕ → ℕ → String → Option String → String → Chunk
make path kind start end text symbol doc = record {
  id = path +s ":" +s decimal start +s "-" +s decimal end;
  path = path;
  symbol = symbol;
  kind = kind;
  start_line = start;
  end_line = end;
  text = text;
  docstring = doc;
  tokens = estimate_tokens text;
}

-- The inner loop of `_windows`: the end of the window that starts at `cursor`, halved until it fits
-- or is one line. A window has at most `window_lines` lines, and that many steps are enough.
unfoldable pub shrink : List String → ℕ → ℕ → ℕ → ℕ → ℕ
shrink lines max_tokens cursor zero window_end = window_end
shrink lines max_tokens cursor (suc fuel) window_end =
    let half = shrink lines max_tokens cursor fuel (cursor + (window_end - cursor) / 2) in
    if ltb max_tokens (estimate_tokens (lines_text lines cursor window_end))
      && ltb cursor window_end
    then half
    else window_end

-- `min(end, cursor + WINDOW_LINES - 1)`
abbrev pub window_limit : ℕ → ℕ → ℕ
window_limit end cursor = if ltb (cursor + 59) end then cursor + 59 else end

-- `_windows` from `cursor` on; `fuel` bounds the number of windows.
unfoldable pub windows_from : String → List String → ℕ → ℕ → ℕ → ℕ → List Chunk
unfolding shrink make lines_text
windows_from path lines max_tokens end zero cursor = []
windows_from path lines max_tokens end (suc fuel) cursor =
    let window_end = shrink lines max_tokens cursor window_lines (window_limit end cursor) in
    let rest = windows_from path lines max_tokens end fuel (window_end + 1) in
    if leb cursor end
    then make path window cursor window_end (lines_text lines cursor window_end) none "" ∷ rest
    else []

-- `_windows`; each window has a line at least, so that there are no more windows than lines.
unfoldable pub windows : String → List String → ℕ → ℕ → ℕ → List Chunk
unfolding windows_from
windows path lines start end max_tokens =
    windows_from path lines max_tokens end (end + 1 - start) start

-- `min((child.start_line for child in children), default=default)`
first_start : ℕ → List Definition → ℕ
first_start default [] = default
first_start default (child ∷ []) = child.start_line
first_start default (child ∷ other ∷ rest) =
    let least = first_start default (other ∷ rest) in
    if ltb least child.start_line then least else child.start_line

-- A definition that fits is one chunk.
abbrev definition_chunk : List String → Definition → Chunk
definition_chunk lines d =
    make d.path definition d.start_line d.end_line (lines_text lines d.start_line d.end_line)
      (some d.name) d.docstring

child_chunks : List String → ℕ → List Definition → List Chunk
unfolding windows make lines_text
child_chunks lines max_tokens [] = []
child_chunks lines max_tokens (child ∷ rest) =
    (if ltb max_tokens (estimate_tokens (lines_text lines child.start_line child.end_line))
      then windows child.path lines child.start_line child.end_line max_tokens
      else definition_chunk lines child ∷ [])
    ++ child_chunks lines max_tokens rest

-- `_split_definition`
unfoldable pub split_definition : List String → Definition → List Definition → ℕ → List Chunk
unfolding make lines_text first_start child_chunks
split_definition lines d children max_tokens =
    let before = first_start (d.end_line + 1) children - 1 in
    let header_end = if ltb d.start_line before then before else d.start_line in
    make d.path definition d.start_line header_end (lines_text lines d.start_line header_end)
      (some d.name) d.docstring
    ∷ child_chunks lines max_tokens children

abbrev is_child_of : String → Definition → Bool
is_child_of name d = elim d.parent [ none ↦ false | some parent ↦ str_eq parent name ]

-- The chunks of one top-level definition.
unfoldable pub definition_chunks : FileRecord → List String → ℕ → Definition → List Chunk
unfolding windows make split_definition
definition_chunks file lines max_tokens d =
    if leb (estimate_tokens (lines_text lines d.start_line d.end_line)) max_tokens
    then make file.path definition d.start_line d.end_line
        (lines_text lines d.start_line d.end_line) (some d.name) d.docstring
      ∷ []
    else let children = select (is_child_of d.name) file.definitions in
      if is_empty children
      then windows file.path lines d.start_line d.end_line max_tokens
      else split_definition lines d children max_tokens

-- The lines before the first definition, or after the last, unless they are blank.
outer_chunk : String → List String → ℕ → ℕ → List Chunk
unfolding make lines_text
outer_chunk path lines start end =
    let text = strip (lines_text lines start end) in
    if not (leb start end) || str_eq text ""
    then []
    else make path header start end text none "" ∷ []

all_definition_chunks : FileRecord → List String → ℕ → List Definition → List Chunk
unfolding definition_chunks
all_definition_chunks file lines max_tokens [] = []
all_definition_chunks file lines max_tokens (d ∷ rest) =
    definition_chunks file lines max_tokens d ++ all_definition_chunks file lines max_tokens rest

-- The end of the last of the definitions.
last_end : ℕ → List Definition → ℕ
last_end n [] = n
last_end n (d ∷ rest) = last_end d.end_line rest

top_level : FileRecord → List Definition
top_level file =
    sort_by (λ (d : Definition). d.start_line)
      (select (λ (d : Definition). elim d.parent [ none ↦ true | some parent ↦ false ])
        file.definitions)

chunks_of : FileRecord → List String → ℕ → List Definition → List Chunk
unfolding windows outer_chunk all_definition_chunks last_end
chunks_of file lines max_tokens [] = windows file.path lines 1 (length lines) max_tokens
chunks_of file lines max_tokens (d ∷ rest) =
    outer_chunk file.path lines 1 (d.start_line - 1)
    ++ (all_definition_chunks file lines max_tokens (d ∷ rest)
        ++ outer_chunk file.path lines (last_end d.end_line rest + 1) (length lines))

-- `chunk_file`
unfoldable pub chunk_file : FileRecord → ℕ → List Chunk
unfolding chunks_of top_level
chunk_file file max_tokens =
    let lines = splitlines file.text in
    if is_empty lines then [] else chunks_of file lines max_tokens (top_level file)
