-- ===== src/Paper/Rates.antt =====
-- `get_rps_from_k6` of project/analysis/plot_paper_figures.py: the request rate of one k6 results
-- file over a given duration.
use laborator_pcd.Base.{ℕ, ◌+◌, String, if◌then◌else◌, ◌==◌, Option, none, some}
use laborator_pcd.Base.Chars.{Chars}
use laborator_pcd.Py.{
  Result, ok, ◌>>=◌, Json, null, get, is_text, Floats, Disk, Decoder, lines_of, fold_each,
}

module _ {F : Type 0} where
  -- `and` looks at the metric only of a point.
  unfoldable pub count_value : ℕ → Json F → Result ℕ
  count_value count v = do
    t ← get v "type" null
    (if is_text t "Point"
        then (get v "metric" null >>= λ m.
            ok (if is_text m "http_req_duration" then count + 1 else count))
        else ok count)

  abbrev pub count_decoded : ℕ → Option (Json F) → Result ℕ
  count_decoded count none = ok count
  count_decoded count (some v) = count_value count v

  unfoldable pub count_line : Decoder F → ℕ → Chars → Result ℕ
  unfolding count_value
  count_line loads count line = count_decoded count (loads line)

module _ {F : Type 0} ⦃fl : Floats F⦄ where
  abbrev pub rate : ℕ → ℕ → Option F
  rate count duration_s = if count == 0 then none else some (fl.ratio count duration_s)

  abbrev pub rps_of_text : Decoder F → ℕ → Option Chars → Result (Option F)
  rps_of_text loads duration_s none = ok none
  rps_of_text loads duration_s (some content) =
      fold_each (count_line loads) 0 (lines_of content) >>= λ count. ok (rate count duration_s)

  unfoldable pub get_rps_from_k6 : Decoder F → Disk → String → ℕ → Result (Option F)
  get_rps_from_k6 loads disk path duration_s = rps_of_text loads duration_s (disk path)
