-- ===== src/Paper/Latency/Bins.antt =====
-- Sorting and binning in `fig_hpa_latency_timeseries` of project/analysis/plot_paper_figures.py:
-- what becomes of the recorded samples.
use mathlib.Core.Path.{subst}
use laborator_pcd.Base.{
  ◌↔◌, ℕ, zero, suc, ◌+◌, ◌*◌, ◌%◌, ◌<◌, ◌≡◌, ◌≢◌, refl, sym, ap, ◌∙◌, inl, inr, ℤ, pos, ◌≤ℤ◌, ◌==◌,
  ==_iff, if◌then◌else◌, List, [], ◌∷◌, arith, length, All, Bool-cases,
}
use laborator_pcd.Py.{Floats}
use laborator_pcd.Numpy.{Numpy}
use laborator_pcd.Paper.Latency.{
  bin, Sample, window, bin_count, precedes, insert_sample, sort_samples, last_time, add_bin,
  bins_from, bins_of,
}
use laborator_pcd.Paper.Latency.Windows.{
  count_within, binned, binned-count_within, count_within-join,
}

bin_count_whole : (m : ℕ) → m % bin ≡ 0 → bin_count (pos m) * bin ≡ m
unfolding bin_count
bin_count_whole m h = omega arith

bin_count_part : (m : ℕ) → m % bin ≢ 0 → m < bin_count (pos m) * bin
unfolding bin_count
bin_count_part m h = omega arith

bin_count_none : (m : ℕ) → bin_count (pos m) ≡ 0 → m ≡ 0
unfolding bin_count
bin_count_none m h = omega arith

bin_count_start : (m : ℕ) → m ≡ 0 → bin_count (pos m) ≡ 0
unfolding bin_count
bin_count_start m h = omega arith

module _ {F : Type 0} where
  -- A sample at the start is in the first bin.
  first_within :
      (n : ℕ) (v : F) (rest : List (Sample F))
      → count_within 0 (0 + n * bin) ((pos 0, v) ∷ rest) ≡ 0
      → n ≡ 0
  first_within n v rest h = ground arith

  -- Times ascend from `t` on.
  abbrev pub Ascends : ℤ → List (Sample F) → Type 0
  Ascends t [] = Unit
  Ascends t ((t', _) ∷ xs) = (t ≤ℤ t') × Ascends t' xs

  abbrev pub IsAscending : List (Sample F) → Type 0
  IsAscending [] = Unit
  IsAscending ((t, _) ∷ xs) = Ascends t xs

  Ascends-last_time :
      (t : ℤ) (xs : List (Sample F))
      → Ascends t xs
      → (t ≤ℤ last_time t xs) × All (λ x. x.0 ≤ℤ last_time t xs) xs
  unfolding last_time
  Ascends-last_time t [] h = omega arith
  Ascends-last_time t ((t', v) ∷ xs) (h, hs) =
      let (up, all) = Ascends-last_time t' xs hs in (omega arith, (up, all))

  count_within-beyond :
      (a b : ℕ) (xs : List (Sample F)) (m : ℕ)
      → m < a
      → All (λ x. x.0 ≤ℤ pos m) xs
      → count_within a b xs ≡ 0
  count_within-beyond a b [] m h all = refl
  count_within-beyond a b ((t, v) ∷ xs) m h (p, ps) =
      ground (arith, count_within-beyond a b xs m h ps)

  -- The samples at the last time, if that is a multiple of the width of a bin.
  abbrev pub dropped : ℕ → List (Sample F) → ℕ
  dropped m xs = if m % bin == 0 then count_within m (suc m) xs else 0

  binned-dropped :
      (m : ℕ) (xs : List (Sample F))
      → All (λ x. x.0 ≤ℤ pos m) xs
      → binned (bin_count (pos m)) 0 xs + dropped m xs ≡ count_within 0 (suc m) xs
  binned-dropped m xs all =
      let n = bin_count (pos m) in
      let held = binned-count_within n 0 xs in
      elim (Bool-cases (m % bin == 0)) [
        | inl e ↦
            let whole : 0 + n * bin ≡ m = omega (arith, bin_count_whole m ((==_iff _ 0).0 e)) in
            rw e (
              ap (λ k. k + count_within m (suc m) xs) (held ∙ ap (λ c. count_within 0 c xs) whole)
              ∙ count_within-join 0 m (suc m) xs (omega arith) (omega arith))
        | inr e ↦
            let part = bin_count_part m (λ z. absurd (cc ((==_iff _ 0).1 z))) in
            let joined = count_within-join 0 (suc m) (0 + n * bin) xs (omega arith) (omega arith) in
            rw e (
              omega (
                arith,
                held,
                joined,
                count_within-beyond (suc m) (0 + n * bin) xs m (omega arith) all,
              ))
      ]

module _ {F : Type 0} ⦃fl : Floats F⦄ where
  insert_sample-Ascends :
      (t : ℤ) (x : Sample F) (xs : List (Sample F))
      → t ≤ℤ x.0
      → Ascends t xs
      → Ascends t (insert_sample x xs)
  unfolding insert_sample
  insert_sample-Ascends t (t', v') [] h a = (h, tt)
  insert_sample-Ascends t (t', v') ((u, w) ∷ xs) h (a, rest) =
      elim (Bool-cases (precedes (u, w) (t', v'))) [
        | inl e ↦ rw e (a, insert_sample-Ascends u (t', v') xs (ground arith) rest)
        | inr e ↦ rw e (h, (ground arith, rest))
      ]

  insert_sample-IsAscending :
      (x : Sample F) (xs : List (Sample F)) → IsAscending xs → IsAscending (insert_sample x xs)
  unfolding insert_sample
  insert_sample-IsAscending (t', v') [] a = tt
  insert_sample-IsAscending (t', v') ((u, w) ∷ xs) a =
      elim (Bool-cases (precedes (u, w) (t', v'))) [
        | inl e ↦ rw e (insert_sample-Ascends u (t', v') xs (ground arith) a)
        | inr e ↦ rw e (ground arith, a)
      ]

  sort_samples-IsAscending : (xs : List (Sample F)) → IsAscending (sort_samples xs)
  unfolding sort_samples
  sort_samples-IsAscending [] = tt
  sort_samples-IsAscending (x ∷ xs) = insert_sample-IsAscending x _ (sort_samples-IsAscending xs)

  count_within-insert :
      (a b : ℕ) (x : Sample F) (xs : List (Sample F))
      → count_within a b (insert_sample x xs) ≡ count_within a b (x ∷ xs)
  unfolding insert_sample
  count_within-insert a b x [] = refl
  count_within-insert a b (t', v') ((u, w) ∷ xs) = elim (Bool-cases (precedes (u, w) (t', v'))) [
    | inl e ↦ rw e (omega (arith, count_within-insert a b (t', v') xs))
    | inr e ↦ rw e refl
  ]

  count_within-sort :
      (a b : ℕ) (xs : List (Sample F)) → count_within a b (sort_samples xs) ≡ count_within a b xs
  unfolding sort_samples
  count_within-sort a b [] = refl
  count_within-sort a b (x ∷ xs) =
      count_within-insert a b x _ ∙ omega (arith, count_within-sort a b xs)

  -- The bins of a recording, once sorted, hold every sample from the start on exactly once, but for
  -- those at the last time if that is a multiple of ten seconds: these are in no bin.
  pub binned-sort :
      (recorded : List (Sample F)) (t : ℤ) (v : F) (rest : List (Sample F)) (m : ℕ)
      → sort_samples recorded ≡ (t, v) ∷ rest
      → last_time t rest ≡ pos m
      → binned (bin_count (last_time t rest)) 0 ((t, v) ∷ rest) + dropped m recorded
        ≡ count_within 0 (suc m) recorded
  binned-sort recorded t v rest m sorted last =
      let ascends : Ascends t rest = subst IsAscending sorted (sort_samples-IsAscending recorded) in
      let (first, others) = Ascends-last_time t rest ascends in
      let all = subst (λ l. All (λ x. x.0 ≤ℤ l) ((t, v) ∷ rest)) last (first, others) in
      let same = λ (a b : ℕ). ap (count_within a b) (sym sorted) ∙ count_within-sort a b recorded in
      ap (λ l. binned (bin_count l) 0 ((t, v) ∷ rest) + dropped m recorded) last
      ∙ ap (λ k. binned (bin_count (pos m)) 0 ((t, v) ∷ rest) + (if m % bin == 0 then k else 0))
          (sym (same m (suc m)))
      ∙ binned-dropped m ((t, v) ∷ rest) all
      ∙ same 0 (suc m)

module _ {F : Type 0} (np : Numpy F) where
  bins_from-iff_binned :
      (n b : ℕ) (samples : List (Sample F))
      → (bins_from np n b samples ≡ []) ↔ (binned n b samples ≡ 0)
  unfolding bins_from binned
  bins_from-iff_binned zero b samples = (λ _. refl, λ _. refl)
  bins_from-iff_binned (suc n) b samples =
      step (window b samples) (bins_from-iff_binned n (b + bin) samples)
    where
      step :
          (w : List F)
          → ((bins_from np n (b + bin) samples ≡ []) ↔ (binned n (b + bin) samples ≡ 0))
          → (add_bin np b w (bins_from np n (b + bin) samples) ≡ [])
            ↔ (length w + binned n (b + bin) samples ≡ 0)
      step [] ih = (λ h. omega (arith, ih.0 h), λ h. ih.1 (omega arith))
      step (v ∷ w) ih = (λ h. absurd (cc h), λ h. absurd (omega arith))

  -- Of sorted samples that begin with one at the start of the recording no bin is drawn exactly
  -- when the last of them, too, is at the start.
  pub bins_of-iff_at_start :
      (v : F) (rest : List (Sample F)) (m : ℕ)
      → last_time (pos 0) rest ≡ pos m
      → (bins_of np ((pos 0, v) ∷ rest) ≡ []) ↔ (m ≡ 0)
  unfolding binned
  bins_of-iff_at_start v rest m last =
      let samples = (pos 0, v) ∷ rest in
      let n = bin_count (pos m) in
      let same = ap (λ l. bins_from np (bin_count l) 0 samples) last in
      let (forth, back) = bins_from-iff_binned n 0 samples in
      (
        λ none_drawn. bin_count_none m (
            first_within n v rest
              (sym (binned-count_within n 0 samples) ∙ forth (sym same ∙ none_drawn))),
        λ at_start. same ∙ back (ap (λ k. binned k 0 samples) (bin_count_start m at_start)),
      )
