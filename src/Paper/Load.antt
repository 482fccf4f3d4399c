-- ===== src/Paper/Load.antt =====
-- `load_all_metrics` and `load_fault_data` of project/analysis/plot_paper_figures.py. A dict is its
-- list of entries, in order of insertion.
pub mod Safety
use Prim.Native.String.{◌++◌ as ◌<>◌}
use laborator_pcd.Base.{
  ℕ, String, str_eq, if◌then◌else◌, Bool, true, false, Option, none, some, List, [], ◌∷◌, ◌++◌,
}
use laborator_pcd.Base.{pos, ◌||◌}
use laborator_pcd.Base.Chars.{Chars}
use mathlib.Core.List.{flatten}
use laborator_pcd.Py.{
  Result, ok, raise, ◌>>=◌, Json, int, get, Floats, Disk, Decoder, load, for_each,
}
use laborator_pcd.Numpy.{Numpy}
use laborator_pcd.Policies.{policies, scenarios}
use laborator_pcd.Paper.Extract.{Metrics, extract_k6_metrics}
use laborator_pcd.Paper.Rates.{get_rps_from_k6}

unfoldable pub k6_path : String → String → String
k6_path policy scenario = "k6-" <> policy <> "-" <> scenario <> ".json"

unfoldable pub fault_path : String → String
fault_path policy = "fault-" <> policy <> ".json"

-- `durations.get(scenario, 60)`
unfoldable pub duration_of : String → ℕ
duration_of scenario =
    if str_eq scenario "steady" || str_eq scenario "burst"
    then 90
    else if str_eq scenario "heavy"
    then 180
    else if str_eq scenario "spike"
    then 50
    else 60

-- The tuple that is kept for a policy and a scenario.
pub record Entry (F : Type 0) : Type 0 where
  pub p50 : F
  pub p95 : F
  pub p99 : F
  pub rps : Option F
  pub err : F

abbrev pub Table : Type 0 → Type 0
Table F = List (String × List (String × Option (Entry F)))

module _ {F : Type 0} ⦃fl : Floats F⦄ (np : Numpy F) (loads : Decoder F) (disk : Disk) where
  -- The body of the two loops.
  abbrev pub entry_of : String → String → Option (Metrics F) → Result (Option (Entry F))
  entry_of path scenario none = ok none
  entry_of path scenario (some m) =
      get_rps_from_k6 loads disk path (duration_of scenario) >>= λ rps.
      ok (some (record { p50 = m.p50; p95 = m.p95; p99 = m.p99; rps = rps; err = m.err_rate }))

  unfoldable pub load_entry : String → String → Result (String × Option (Entry F))
  load_entry policy scenario =
      let path = k6_path policy scenario in
      entry_of path scenario (extract_k6_metrics np loads disk path) >>= λ e. ok (scenario, e)

  unfoldable pub load_policy : String → Result (String × List (String × Option (Entry F)))
  unfolding load_entry
  load_policy policy = for_each (load_entry policy) scenarios >>= λ row. ok (policy, row)

  unfoldable pub load_all_metrics : Result (Table F)
  unfolding load_policy
  load_all_metrics = for_each load_policy policies

module _ {F : Type 0} (loads : Decoder F) (disk : Disk) where
  abbrev pub recovery_of : String → Option Chars → Result (List (String × Json F))
  recovery_of policy none = ok []
  recovery_of policy (some text) = do
    v ← load loads text
    time ← get v "recovery_time_s" (int (pos 0))
    ok ((policy, time) ∷ [])

  unfoldable pub load_fault_data : Result (List (String × Json F))
  load_fault_data = do
    found ← for_each (λ policy. recovery_of policy (disk (fault_path policy))) policies
    ok (flatten found)
