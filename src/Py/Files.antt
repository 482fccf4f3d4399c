-- ===== src/Py/Files.antt =====
-- Text files: the file system gives the text of a path that exists, as `open` reads it in text
-- mode, where every line ends by a newline character.
use laborator_pcd.Base.{
  ℕ, String, Bool, true, false, if◌then◌else◌, ◌==◌, Option, none, some, List, [], ◌∷◌,
}
use laborator_pcd.Base.Chars.{Chars, newline}
use laborator_pcd.Py.Exceptions.{json_decode_error, Result}
use laborator_pcd.Py.Convert.{or_raise}
use laborator_pcd.Py.Values.{Json}

abbrev pub Disk : Type 0
Disk = String → Option Chars

-- `os.path.exists(path)` and `Path.exists`
abbrev pub exists : Disk → String → Bool
exists disk path = elim (disk path) [ none ↦ false | some _ ↦ true ]

abbrev pub start_line : ℕ → List Chars → List Chars
start_line c [] = (c ∷ []) ∷ []
start_line c (l ∷ ls) = (c ∷ l) ∷ ls

-- `for line in f`: the lines, each with its newline, the last one perhaps without.
unfoldable pub lines_of : Chars → List Chars
lines_of [] = []
lines_of (c ∷ cs) = if c == newline then (c ∷ []) ∷ lines_of cs else start_line c (lines_of cs)

-- `json.loads(text)`; `none` is a JSONDecodeError.
abbrev pub Decoder : Type 0 → Type 0
Decoder F = Chars → Option (Json F)

-- `json.load(f)`
abbrev pub load : {F : Type 0} → Decoder F → Chars → Result (Json F)
load loads text = or_raise json_decode_error (loads text)
