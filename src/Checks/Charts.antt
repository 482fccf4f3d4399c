-- ===== src/Checks/Charts.antt =====
-- tema1/generate_charts.py on a table of three rows.
use laborator_pcd.Base.{refl, Bool, true, ◌||◌, ◌&&◌, ◌==◌, List, String, str_eq, some, [], ◌∷◌}
use laborator_pcd.Base.Chars.{Chars, codes}
use laborator_pcd.Py.{ok, Disk, is_digit}
use laborator_pcd.Drawing.{Table}
use laborator_pcd.Transfer.Charts.{Pandas, column, keep, generate_charts}
use laborator_pcd.Transfer.Charts.Both.{IsComplete, generate_charts-draws}

abbrev measured : Table String
measured =
    ("Protocol", "tcp" ∷ "udp" ∷ "quic" ∷ [])
    ∷ ("Payload", "1 GB" ∷ "500 MB" ∷ "1 GB" ∷ [])
    ∷ ("BlockSize", "512" ∷ "1024" ∷ "1024" ∷ [])
    ∷ ("TimeTaken", "10.48" ∷ "5.06" ∷ "7.5" ∷ [])
    ∷ ("LossRate", "0.00" ∷ "0.10" ∷ "0.00" ∷ [])
    ∷ []

-- Digits and points.
abbrev is_decimal : Chars → Bool
is_decimal [] = true
is_decimal (c ∷ cs) = (is_digit c || c == b'.') && is_decimal cs

abbrev all_numbers : List String → Bool
all_numbers [] = true
all_numbers (c ∷ cs) = is_decimal (codes c) && all_numbers cs

abbrev pandas : Pandas String
pandas = record {
  read_csv = λ text. ok measured;
  equals = str_eq;
  is_numeric = λ cells. all_numbers cells;
  to_text = λ cell. cell;
}

abbrev disk : Disk
disk path = some (codes "Protocol,Payload")

generate_charts-draws_example : IsComplete pandas measured (generate_charts pandas disk)
unfolding column keep
generate_charts-draws_example =
    generate_charts-draws pandas measured refl refl refl refl refl disk refl refl refl refl
