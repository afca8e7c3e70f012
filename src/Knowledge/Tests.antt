-- ===== src/Knowledge/Tests.antt =====
-- The chunks of small files.
use autonomous_software_engi.Prelude.{String, ◌≡◌, List, [], ◌∷◌, arith}
use autonomous_software_engi.Prelude.Text.{join}
use autonomous_software_engi.Knowledge.Chunks.{lines_text, windows}
use autonomous_software_engi.Knowledge.Windows.{Tiles, windows-Tiles}
use autonomous_software_engi.Knowledge.Whole.{texts, windows-text}

abbrev lines : List String
lines = "import os" ∷ "x = os.name" ∷ "print(x)" ∷ []

windows-Tiles_example : Tiles lines 4 1 3 (windows "a.py" lines 1 3 4)
windows-Tiles_example = windows-Tiles "a.py" lines 1 3 4

windows-text_example : join "\n" (texts (windows "a.py" lines 2 3 4)) ≡ lines_text lines 2 3
windows-text_example = windows-text "a.py" lines 2 3 4 (omega arith) (omega arith) (omega arith)
