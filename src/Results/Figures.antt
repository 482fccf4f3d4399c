-- ===== src/Results/Figures.antt =====
-- The figures of project/analysis/plot_results.py. A figure is what the plotting library is handed:
-- labels, places and values.
pub mod Fallback
use laborator_pcd.Base.{
  ℕ, zero, suc, ◌+◌, ℤ, pos, String, str_eq, Bool, true, false, ◌&&◌, not, if◌then◌else◌, Option,
  none, some, List, [], ◌∷◌, ◌++◌, map, length,
}
use laborator_pcd.Base.Chars.{Chars, codes, split}
use laborator_pcd.Py.{
  Error, attribute_error, type_error, value_error, Result, ok, raise, ◌>>=◌, Json, null, bool, str,
  int, float, arr, obj, Fields, end, field, get, is_text, is_truthy, or_else, Floats, to_float,
  Disk, Decoder, load, for_each,
}
use laborator_pcd.Numpy.{Numpy}
use laborator_pcd.Policies.{policies, scenarios, policy_labels, label_of}
use laborator_pcd.Paper.Load.{fault_path}
use laborator_pcd.Paper.Figures.{places}
use laborator_pcd.Drawing.{Series}
use laborator_pcd.Results.K6.{K6, load_k6, load_prom}

-- The bars of one subplot of the latency figure.
pub record Latencies (F : Type 0) : Type 0 where
  pub labels : List String
  pub p50s : List F
  pub p95s : List F
  pub p99s : List F

-- One policy's three bars and its label.
pub record Bars (F : Type 0) : Type 0 where
  pub label : String
  pub p50 : F
  pub p95 : F
  pub p99 : F

-- Half of `0.8 / n`, in units of 1/10000 of the distance between groups.
abbrev pub half_bar : ℕ
half_bar = 1000

-- `k6.get(key)`, where a key that is missing gives None too
abbrev pub value_or_none : {F : Type 0} → Option F → Json F
value_or_none none = null
value_or_none (some x) = float x

module _ {F : Type 0} ⦃fl : Floats F⦄ where
  -- `lat.get(key) or k6.get(key_ms) or 0`
  unfoldable pub prefer : Json F → Option F → Json F
  unfolding is_truthy
  prefer prom k6 = or_else (or_else prom (value_or_none k6)) (int (pos 0))

  -- `float(p) if p != "null" else 0`
  unfoldable pub height : Json F → Result F
  unfolding to_float is_text
  height p = if is_text p "null" then ok fl.nought else to_float p

  -- `float(rps) if rps and rps != "null" else 0`
  unfoldable pub rps_height : Json F → Result F
  unfolding to_float is_text is_truthy
  rps_height rps = if is_truthy rps && not (is_text rps "null") then to_float rps else ok fl.nought

  -- `(k6.get("error_rate") or 0) * 100`
  unfoldable pub error_height : Option F → F
  error_height none = fl.nought
  error_height (some x) = if fl.is_zero x then fl.nought else fl.scale 100 x

module _ {F : Type 0} ⦃fl : Floats F⦄ (np : Numpy F) (loads : Decoder F) (disk : Disk) where
  unfoldable pub latency_bars : String → String → Result (Bars F)
  latency_bars scenario policy = do
    prom ← load_prom loads disk policy scenario
    k6 ← load_k6 np loads disk policy scenario
    lat ← get prom "latency_ms" (obj end)
    p50 ← get lat "p50" null
    p95 ← get lat "p95" null
    p99 ← get lat "p99" null
    h50 ← height (prefer p50 k6.p50_ms)
    h95 ← height (prefer p95 k6.p95_ms)
    h99 ← height (prefer p99 k6.p99_ms)
    label ← label_of policy_labels policy
    ok (record { label = label; p50 = h50; p95 = h95; p99 = h99 })

  unfoldable pub fig_latency_bar : Result (List (Latencies F))
  unfolding latency_bars
  fig_latency_bar = for_each subplot scenarios
    where
      subplot : String → Result (Latencies F)
      subplot scenario = do
        bars ← for_each (latency_bars scenario) policies
        ok (record {
          labels = map (λ b. b.label) bars;
          p50s = map (λ b. b.p50) bars;
          p95s = map (λ b. b.p95) bars;
          p99s = map (λ b. b.p99) bars;
        })

  abbrev pub with_index : ℕ → List String → List (ℕ × String)
  with_index i [] = []
  with_index i (x ∷ xs) = (i, x) ∷ with_index (suc i) xs

  unfoldable pub throughput_series : ℕ × String → Result (Series F)
  throughput_series (i, policy) = do
    heights ← for_each rps_of scenarios
    label ← label_of policy_labels policy
    ok (record {
      label = label;
      xs = places half_bar (length policies) i 0 scenarios;
      heights = heights;
    })
    where
      rps_of : String → Result F
      rps_of scenario = do
        prom ← load_prom loads disk policy scenario
        rps ← get prom "throughput_rps" (int (pos 0))
        rps_height rps

  unfoldable pub fig_throughput_bar : Result (List (Series F))
  unfolding throughput_series
  fig_throughput_bar = for_each throughput_series (with_index 0 policies)

  unfoldable pub error_series : ℕ × String → Result (Series F)
  error_series (i, policy) = do
    heights ← for_each error_of scenarios
    label ← label_of policy_labels policy
    ok (record {
      label = label;
      xs = places half_bar (length policies) i 0 scenarios;
      heights = heights;
    })
    where
      error_of : String → Result F
      error_of scenario = do
        k6 ← load_k6 np loads disk policy scenario
        ok (error_height k6.error_rate)

  unfoldable pub fig_error_rate : Result (List (Series F))
  unfolding error_series
  fig_error_rate = for_each error_series (with_index 0 policies)
