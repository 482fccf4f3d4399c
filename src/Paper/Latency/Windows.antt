-- ===== src/Paper/Latency/Windows.antt =====
-- Which samples the bins of `fig_hpa_latency_timeseries` in
-- project/analysis/plot_paper_figures.py cover.
use laborator_pcd.Base.{
  ℕ, zero, suc, ◌+◌, ◌*◌, ◌≤◌, ◌<◌, ◌≡◌, refl, sym, ap, ◌∙◌, pos, if◌then◌else◌, List, [], ◌∷◌,
  arith, length,
}
use laborator_pcd.Paper.Latency.{bin, Sample, is_within, window, bin_count}

module _ {F : Type 0} where
  -- How many samples lie in a stretch of time.
  abbrev pub count_within : ℕ → ℕ → List (Sample F) → ℕ
  count_within from to [] = 0
  count_within from to ((t, _) ∷ xs) =
      (if is_within from to t then 1 else 0) + count_within from to xs

  -- How many values the windows hold together.
  unfoldable pub binned : ℕ → ℕ → List (Sample F) → ℕ
  binned zero b samples = 0
  binned (suc left) b samples = length (window b samples) + binned left (b + bin) samples

  pub length-window :
      (b : ℕ) (samples : List (Sample F))
      → length (window b samples) ≡ count_within b (b + bin) samples
  unfolding window
  length-window b [] = refl
  length-window b ((t, v) ∷ xs) = ground (arith, length-window b xs)

  pub count_within-join :
      (a b c : ℕ) (samples : List (Sample F))
      → a ≤ b
      → b ≤ c
      → count_within a b samples + count_within b c samples ≡ count_within a c samples
  count_within-join a b c [] h k = refl
  count_within-join a b c ((t, v) ∷ xs) h k = ground (arith, count_within-join a b c xs h k)

  count_within_empty : (a : ℕ) (samples : List (Sample F)) → count_within a a samples ≡ 0
  count_within_empty a [] = refl
  count_within_empty a ((t, v) ∷ xs) = ground (arith, count_within_empty a xs)

  -- The windows of n bins hold each sample of their stretch once, and no other.
  pub binned-count_within :
      (n b : ℕ) (samples : List (Sample F))
      → binned n b samples ≡ count_within b (b + n * bin) samples
  unfolding binned
  binned-count_within zero b samples =
      sym (ap (λ c. count_within b c samples) e ∙ count_within_empty b samples)
    where
      e : b + 0 * bin ≡ b
      e = omega arith
  binned-count_within (suc n) b samples =
      ap (λ m. m + binned n (b + bin) samples) (length-window b samples)
      ∙ ap (λ m. count_within b (b + bin) samples + m) (binned-count_within n (b + bin) samples)
      ∙ count_within-join b (b + bin) (b + bin + n * bin) samples (omega arith) (omega arith)
      ∙ ap (λ c. count_within b c samples) e
    where
      e : b + bin + n * bin ≡ b + suc n * bin
      e = omega arith

-- The bins reach to the last sample, from the start on, and less than a bin beyond it.
bin_count_bounds : (t : ℕ) → (t ≤ bin_count (pos t) * bin) × (bin_count (pos t) * bin < t + bin)
unfolding bin_count
bin_count_bounds t = omega arith

-- For a last sample at t microseconds after the start, the windows of the bins together hold each
-- sample from the start up to the end of the last bin once, and no other; the last bin ends at t or
-- later, and less than a bin beyond it.
pub bins_cover :
    {F : Type 0} (t : ℕ) (samples : List (Sample F))
    → (binned (bin_count (pos t)) 0 samples ≡ count_within 0 (bin_count (pos t) * bin) samples)
      × (t ≤ bin_count (pos t) * bin)
      × (bin_count (pos t) * bin < t + bin)
bins_cover t samples =
    let bounds = bin_count_bounds t in
    (
      binned-count_within (bin_count (pos t)) 0 samples
          ∙ ap (λ end. count_within 0 end samples) (omega arith),
      bounds.0,
      bounds.1,
    )
