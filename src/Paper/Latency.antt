-- ===== src/Paper/Latency.antt =====
-- `fig_hpa_latency_timeseries` of project/analysis/plot_paper_figures.py: latency percentiles in
-- bins of ten seconds. Times are whole microseconds, the precision of `datetime.timestamp`.
pub mod Windows
pub mod Bins
use laborator_pcd.Base.{
  ℕ, zero, suc, ◌+◌, ◌-◌, ◌*◌, ◌/◌, ℤ, pos, negsuc, ◌-ℤ◌, ◌+ℤ◌, ltb_ℤ, leb_ℤ, leb, Bool, true,
  false, ◌&&◌, ◌||◌, not, if◌then◌else◌, ◌==◌, Option, none, some, List, [], ◌∷◌, ◌++◌, String,
}
use laborator_pcd.Base.Chars.{Chars, codes}
use laborator_pcd.Py.{
  Result, ok, raise, ◌>>=◌, Json, null, bool, int, float, str, arr, obj, end, get, is_text, Floats,
  to_float, strip, is_empty, Disk, Decoder, lines_of, fold_each,
}
use laborator_pcd.Numpy.{Numpy}

abbrev pub bin : ℕ
bin = 10_000_000

-- `(elapsed, latency)`
abbrev pub Sample : Type 0 → Type 0
Sample F = ℤ × F

pub record Recording (F : Type 0) : Type 0 where
  pub experiment_start : Option ℤ
  pub samples : List (Sample F)

-- `raw_time.replace("Z", "+00:00")`
unfoldable pub with_offset : Chars → Chars
with_offset [] = []
with_offset (c ∷ cs) = if c == b'Z' then codes "+00:00" ++ with_offset cs else c ∷ with_offset cs

-- `datetime.fromisoformat(text).timestamp()`; `none` is any exception of it.
abbrev pub Clock : Type 0
Clock = Chars → Option ℤ

abbrev pub start_or : Option ℤ → ℤ → ℤ
start_or none epoch = epoch
start_or (some start) epoch = start

module _ {F : Type 0} where
  -- The `try`: what is no text has no method `replace`.
  abbrev pub epoch_of : Clock → Json F → Option ℤ
  epoch_of clock (str s) = clock (with_offset (codes s))
  epoch_of clock _ = none

  abbrev pub add_sample : Recording F → Option ℤ → F → Recording F
  add_sample s none val = s
  add_sample s (some epoch) val =
      let start = start_or s.experiment_start epoch in
      record { experiment_start = some start; samples = s.samples ++ ((epoch -ℤ start, val) ∷ []) }

module _ {F : Type 0} ⦃fl : Floats F⦄ (clock : Clock) where
  unfoldable pub record_point : Recording F → Json F → Result (Recording F)
  record_point s v = do
    d ← get v "data" (obj end)
    raw_time ← get d "time" (str "")
    value ← get d "value" (int (pos 0))
    val ← to_float value
    ok (add_sample s (epoch_of clock raw_time) val)

  -- `and` looks at the metric only of a point.
  unfoldable pub record_value : Recording F → Json F → Result (Recording F)
  unfolding record_point
  record_value s v = do
    t ← get v "type" null
    (if is_text t "Point"
        then (get v "metric" null >>= λ m.
            (if is_text m "http_req_duration" then record_point s v else ok s))
        else ok s)

  abbrev pub record_decoded : Recording F → Option (Json F) → Result (Recording F)
  record_decoded s none = ok s
  record_decoded s (some v) = record_value s v

  unfoldable pub record_line : Decoder F → Recording F → Chars → Result (Recording F)
  unfolding record_value
  record_line loads s line =
      let text = strip line in if is_empty text then ok s else record_decoded s (loads text)

module _ {F : Type 0} ⦃fl : Floats F⦄ where
  -- `<` of tuples
  abbrev pub precedes : Sample F → Sample F → Bool
  precedes (t, v) (t', v') = ltb_ℤ t t' || (not (ltb_ℤ t' t) && fl.gt v' v)

  unfoldable pub insert_sample : Sample F → List (Sample F) → List (Sample F)
  insert_sample x [] = x ∷ []
  insert_sample x (y ∷ ys) = if precedes y x then y ∷ insert_sample x ys else x ∷ y ∷ ys

  -- `samples.sort()`
  unfoldable pub sort_samples : List (Sample F) → List (Sample F)
  unfolding insert_sample
  sort_samples [] = []
  sort_samples (x ∷ xs) = insert_sample x (sort_samples xs)

-- `from <= t < to`
abbrev pub is_within : ℕ → ℕ → ℤ → Bool
is_within from to t = leb_ℤ (pos from) t && ltb_ℤ t (pos to)

module _ {F : Type 0} where
  -- `samples[-1][0]`
  unfoldable pub last_time : ℤ → List (Sample F) → ℤ
  last_time t [] = t
  last_time t ((t', _) ∷ xs) = last_time t' xs

  -- `[v for (t, v) in samples if b <= t < b + BIN_S]`
  unfoldable pub window : ℕ → List (Sample F) → List F
  window b [] = []
  window b ((t, v) ∷ xs) =
      let rest = window b xs in if is_within b (b + bin) t then v ∷ rest else rest

-- How many bins there are: `np.arange(0, max_t + BIN_S, BIN_S)` without its last element.
unfoldable pub bin_count : ℤ → ℕ
bin_count (pos t) = (t + bin + (bin - 1)) / bin - 1
bin_count (negsuc n) = 0

pub record Bin (F : Type 0) : Type 0 where
  pub centre : ℕ
  pub p50 : F
  pub p95 : F

module _ {F : Type 0} (np : Numpy F) where
  -- `if window:`
  abbrev pub add_bin : ℕ → List F → List (Bin F) → List (Bin F)
  add_bin b [] rest = rest
  add_bin b (v ∷ vs) rest =
      record {
        centre = b + bin / 2;
        p50 = np.percentile (v ∷ vs) 50;
        p95 = np.percentile (v ∷ vs) 95;
      }
      ∷ rest

  -- The loop over the bins, from the bin at `b`.
  unfoldable pub bins_from : ℕ → ℕ → List (Sample F) → List (Bin F)
  unfolding window
  bins_from zero b samples = []
  bins_from (suc left) b samples =
      let rest = bins_from left (b + bin) samples in add_bin b (window b samples) rest

  abbrev pub bins_of : List (Sample F) → List (Bin F)
  bins_of [] = []
  bins_of ((t, v) ∷ xs) = bins_from (bin_count (last_time t xs)) 0 ((t, v) ∷ xs)

module _ {F : Type 0} ⦃fl : Floats F⦄ (np : Numpy F) (clock : Clock) (loads : Decoder F) where
  abbrev pub nothing_recorded : Recording F
  nothing_recorded = record { experiment_start = none; samples = [] }

  -- The bins that are drawn; the figure is skipped if there are none.
  abbrev pub timeseries_of_text : Option Chars → Result (List (Bin F))
  timeseries_of_text none = ok []
  timeseries_of_text (some text) = do
    s ← fold_each (record_line clock loads) nothing_recorded (lines_of text)
    ok (bins_of np (sort_samples s.samples))

  unfoldable pub fig_hpa_latency_timeseries : Disk → Result (List (Bin F))
  unfolding record_line sort_samples bins_from bin_count last_time
  fig_hpa_latency_timeseries disk = timeseries_of_text (disk "k6-hpa-heavy.json")
