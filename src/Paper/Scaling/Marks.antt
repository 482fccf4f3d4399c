-- ===== src/Paper/Scaling/Marks.antt =====
-- The scale-ups of `fig_hpa_scaling` in project/analysis/plot_paper_figures.py: the lines that it
-- draws and the times that it returns are computed apart, by a loop and by a comprehension.
use mathlib.Core.Path.{subst}
use mathlib.Core.Option.{some-injective}
use laborator_pcd.Base.{
  ◌≡◌, refl, ap, ℤ, ltb_ℤ, if◌then◌else◌, Option, none, some, List, [], ◌∷◌, arith,
}
use laborator_pcd.Base.Chars.{Chars}
use laborator_pcd.Py.{ok, ok-injective, Floats, Disk, Decoder, lines_of}
use laborator_pcd.Paper.Scaling.{
  Timeline, Progress, Scaling, mark_scale_ups, scale_ups, drop_last, draw_scaling, finish_scaling,
  scaling_of_text, fig_hpa_scaling, no_samples,
}
use laborator_pcd.Paper.Scaling.Aligned.{IsAligned, read_timeline-IsAligned}

mark_scale_ups-scale_ups :
    {F : Type 0} (prev : ℤ) (ts : List F) (rs : List ℤ)
    → mark_scale_ups prev ts rs ≡ scale_ups ts (drop_last (prev ∷ rs)) rs
unfolding mark_scale_ups scale_ups drop_last
mark_scale_ups-scale_ups prev [] [] = refl
mark_scale_ups-scale_ups prev [] (r ∷ rs) = refl
mark_scale_ups-scale_ups prev (t ∷ ts) [] = refl
mark_scale_ups-scale_ups prev (t ∷ ts) (r ∷ rs) =
    ap (λ rest. if ltb_ℤ prev r then t ∷ rest else rest) (mark_scale_ups-scale_ups r ts rs)

module _ {F : Type 0} ⦃fl : Floats F⦄ where
  -- What is known of a drawing: it stems from aligned lists, and marks the times that it returns.
  abbrev pub IsFaithful : Scaling F → Type 0
  IsFaithful d = IsAligned d.timeline × (d.marks ≡ d.scale_up_times)

  draw_scaling-IsFaithful :
      (s : Timeline F) (es : List F) (rs : List ℤ) {d : Scaling F}
      → IsAligned s
      → draw_scaling s es rs ≡ ok (some d)
      → IsFaithful d
  draw_scaling-IsFaithful s [] rs a h = cc
  draw_scaling-IsFaithful s (e ∷ es) [] a h = cc
  draw_scaling-IsFaithful s (e ∷ es) (r ∷ rs) a h =
      subst IsFaithful (some-injective _ _ (ok-injective h)) (a, mark_scale_ups-scale_ups r es rs)

  finish_scaling-IsFaithful :
      (p : Progress F) {d : Scaling F}
      → (p.1 ≡ none → IsAligned p.0)
      → finish_scaling p ≡ ok (some d)
      → IsFaithful d
  finish_scaling-IsFaithful (s, none) a h =
      draw_scaling-IsFaithful s s.elapsed s.replicas (a refl) h
  finish_scaling-IsFaithful (s, some e) a h = cc

  -- If the figure is drawn, its three lists are equally long, and the lines that mark the scale-ups
  -- stand at just the times that are returned for the latency figure.
  pub fig_hpa_scaling-IsFaithful :
      (loads : Decoder F) (disk : Disk) {d : Scaling F}
      → fig_hpa_scaling loads disk ≡ ok (some d)
      → IsFaithful d
  unfolding fig_hpa_scaling
  fig_hpa_scaling-IsFaithful loads disk h = of_text (disk "hpa-scaling-timeline.jsonl") h
    where
      of_text :
          (o : Option Chars) {d : Scaling F} → scaling_of_text loads o ≡ ok (some d) → IsFaithful d
      of_text none h = cc
      of_text (some text) h =
          finish_scaling-IsFaithful _
            (read_timeline-IsAligned loads (lines_of text) no_samples (omega arith)) h
