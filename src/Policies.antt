-- ===== src/Policies.antt =====
-- The load-balancing policies and load scenarios, which head all three analysis scripts alike
-- (project/analysis/summary_table.py, plot_results.py and plot_paper_figures.py).
use laborator_pcd.Base.{String, List, [], ◌∷◌, str_eq, if◌then◌else◌}
use laborator_pcd.Py.{Result, ok, raise, key_error}

abbrev pub policies : List String
policies = "rr" ∷ "least-request" ∷ "ring-hash" ∷ "maglev" ∷ []

abbrev pub scenarios : List String
scenarios = "steady" ∷ "burst" ∷ "heavy" ∷ "spike" ∷ []

abbrev pub policy_labels : List (String × String)
policy_labels =
    ("rr", "Round Robin")
    ∷ ("least-request", "Least Request")
    ∷ ("ring-hash", "Ring Hash")
    ∷ ("maglev", "Maglev")
    ∷ []

-- `labels[key]` for a dict of texts
unfoldable pub label_of : List (String × String) → String → Result String
label_of [] key = raise key_error
label_of ((k, label) ∷ rest) key = if str_eq k key then ok label else label_of rest key
