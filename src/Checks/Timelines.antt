-- ===== src/Checks/Timelines.antt =====
-- The two figures of the autoscaling run in project/analysis/plot_paper_figures.py on short
-- recordings.
use laborator_pcd.Base.{
  ◌≡◌, ◌≤◌, ◌<◌, ◌↔◌, ◌+◌, ◌*◌, refl, ap, ℕ, pos, none, some, List, [], ◌∷◌, arith,
}
use laborator_pcd.Base.Chars.{Chars, codes}
use laborator_pcd.Py.{
  Json, int, obj, end, field, ok, to_float, to_int, get, index, lookup_or, has_key, Decoder, strip,
  lines_of,
}
use laborator_pcd.Paper.Scaling.{
  Timeline, Scaling, no_samples, read_line, read_timeline, drop_last, mark_scale_ups, scale_ups,
  fig_hpa_scaling,
}
use laborator_pcd.Paper.Scaling.Aligned.{IsAligned, read_timeline-IsAligned}
use laborator_pcd.Paper.Scaling.Marks.{IsFaithful, fig_hpa_scaling-IsFaithful}
use laborator_pcd.Paper.Latency.{
  Sample, bin, bin_count, insert_sample, sort_samples, last_time, bins_of,
}
use laborator_pcd.Paper.Latency.Windows.{count_within, binned, bins_cover}
use laborator_pcd.Paper.Latency.Bins.{dropped, binned-sort, bins_of-iff_at_start}
use laborator_pcd.Checks.Sample.{Milli, milli, knows, nearest}

abbrev sample : ℕ → ℕ → Json Milli
sample time count = obj (
    field "elapsed_s" (int (pos time))
      (field "replicas" (int (pos count)) (field "cpu_pct" (int (pos 50)) end)))

-- The line that holds no JSON and the one without a time are skipped.
abbrev loads : Decoder Milli
loads = knows (
    (codes "A", sample 0 2)
    ∷ (codes "B", sample 15 2)
    ∷ (codes "C", sample 30 4)
    ∷ (codes "N", obj end)
    ∷ [])

abbrev text : Chars
text = codes "A\nB\nN\n?\n\nC"

abbrev timeline : Timeline Milli
timeline = record {
  elapsed = 0 ∷ 15_000 ∷ 30_000 ∷ [];
  replicas = pos 2 ∷ pos 2 ∷ pos 4 ∷ [];
  cpu_pct = 50_000 ∷ 50_000 ∷ 50_000 ∷ [];
}

abbrev scaling : Scaling Milli
scaling = record {
  timeline = timeline;
  marks = 30_000 ∷ [];
  scale_up_times = 30_000 ∷ [];
  start = 0;
}

read : read_timeline loads no_samples (lines_of text) ≡ (timeline, none)
unfolding read_timeline read_line lines_of strip get index lookup_or has_key to_float to_int
read = refl

drawn : fig_hpa_scaling loads (λ path. some text) ≡ ok (some scaling)
unfolding fig_hpa_scaling read_timeline read_line lines_of strip get index lookup_or has_key
    to_float to_int mark_scale_ups scale_ups drop_last
drawn = refl

fig_hpa_scaling-IsFaithful_example : IsFaithful scaling
fig_hpa_scaling-IsFaithful_example = fig_hpa_scaling-IsFaithful loads (λ path. some text) drawn

read_timeline-IsAligned_example : IsAligned (read_timeline loads no_samples (lines_of text)).0
read_timeline-IsAligned_example =
    read_timeline-IsAligned loads (lines_of text) no_samples (omega arith) (ap (λ p. p.1) read)

-- Three samples, at 3, 10 and 0 seconds.
abbrev recorded : List (Sample Milli)
recorded = (pos 3_000_000, 700) ∷ (pos 10_000_000, 900) ∷ (pos 0, 400) ∷ []

abbrev others : List (Sample Milli)
others = (pos 3_000_000, 700) ∷ (pos 10_000_000, 900) ∷ []

sorted : sort_samples recorded ≡ (pos 0, 400) ∷ others
unfolding sort_samples insert_sample
sorted = refl

-- The sample at 10 seconds is in no bin.
one_dropped : dropped 10_000_000 recorded ≡ 1
one_dropped = refl

binned-sort_example :
    binned (bin_count (last_time (pos 0) others)) 0 ((pos 0, 400) ∷ others)
      + dropped 10_000_000 recorded
    ≡ count_within 0 10_000_001 recorded
binned-sort_example =
    binned-sort recorded (pos 0) 400 others 10_000_000 sorted (unfold last_time in refl)

bins_cover_example :
    (binned (bin_count (pos 10_000_000)) 0 recorded
      ≡ count_within 0 (bin_count (pos 10_000_000) * bin) recorded)
    × (10_000_000 ≤ bin_count (pos 10_000_000) * bin)
    × (bin_count (pos 10_000_000) * bin < 10_000_000 + bin)
bins_cover_example = bins_cover 10_000_000 recorded

abbrev at_ten : ℕ
at_ten = 10_000_000

bins_of-iff_at_start_example : (bins_of nearest ((pos 0, 400) ∷ others) ≡ []) ↔ (at_ten ≡ 0)
bins_of-iff_at_start_example =
    bins_of-iff_at_start nearest 400 others at_ten (unfold last_time in refl)
