-- ===== src/Paper/Scaling.antt =====
-- `fig_hpa_scaling` of project/analysis/plot_paper_figures.py: the replicas over time, with a mark
-- at each scale-up. The lists are filled one after the other, so an exception can leave them at
-- different lengths.
pub mod Aligned
pub mod Marks
use laborator_pcd.Base.{
  ℕ, ℤ, pos, ltb_ℤ, Bool, true, false, if◌then◌else◌, Option, none, some, List, [], ◌∷◌, ◌++◌,
  String,
}
use laborator_pcd.Base.Chars.{Chars}
use laborator_pcd.Py.{
  value_error, Error, json_decode_error, key_error, Result, ok, raise, ◌>>=◌, Json, int, get, index,
  Floats, to_float, to_int, strip, is_empty, Disk, Decoder, lines_of,
}

pub record Timeline (F : Type 0) : Type 0 where
  pub elapsed : List F
  pub replicas : List ℤ
  pub cpu_pct : List F

-- The lists, and the exception that is on its way, if any.
abbrev pub Progress : Type 0 → Type 0
Progress F = Timeline F × Option Error

-- `except (json.JSONDecodeError, KeyError)`
abbrev pub is_skipped : Error → Bool
is_skipped json_decode_error = true
is_skipped key_error = true
is_skipped _ = false

module _ {F : Type 0} ⦃fl : Floats F⦄ where
  abbrev pub push_cpu : Timeline F → Result F → Progress F
  push_cpu s (raise e) = (s, some e)
  push_cpu s (ok x) = (record s { cpu_pct = s.cpu_pct ++ (x ∷ []) }, none)

  abbrev pub push_replicas : Timeline F → Json F → Result ℤ → Progress F
  push_replicas s v (raise e) = (s, some e)
  push_replicas s v (ok n) =
      push_cpu (record s { replicas = s.replicas ++ (n ∷ []) })
        (get v "cpu_pct" (int (pos 0)) >>= to_float)

  abbrev pub push_elapsed : Timeline F → Json F → Result F → Progress F
  push_elapsed s v (raise e) = (s, some e)
  push_elapsed s v (ok x) =
      push_replicas (record s { elapsed = s.elapsed ++ (x ∷ []) }) v
        (get v "replicas" (int (pos 2)) >>= to_int)

  -- The body of the `try`.
  abbrev pub try_line : Timeline F → Option (Json F) → Progress F
  try_line s none = (s, some json_decode_error)
  try_line s (some v) = push_elapsed s v (index v "elapsed_s" >>= to_float)

  abbrev pub catch : Progress F → Progress F
  catch (s, none) = (s, none)
  catch (s, some e) = if is_skipped e then (s, none) else (s, some e)

  unfoldable pub read_line : Decoder F → Timeline F → Chars → Progress F
  read_line loads s line =
      let text = strip line in if is_empty text then (s, none) else catch (try_line s (loads text))

  abbrev pub carry_on : Progress F → (Timeline F → Progress F) → Progress F
  carry_on (s, none) rest = rest s
  carry_on (s, some e) rest = (s, some e)

  -- The loop; an exception that is not caught ends it.
  unfoldable pub read_timeline : Decoder F → Timeline F → List Chars → Progress F
  read_timeline loads s [] = (s, none)
  read_timeline loads s (l ∷ ls) = carry_on (read_line loads s l) (λ s'. read_timeline loads s' ls)

-- `xs[:-1]`
unfoldable pub drop_last {ℓ} : {A : Type ℓ} → List A → List A
drop_last [] = []
drop_last (x ∷ []) = []
drop_last (x ∷ y ∷ xs) = x ∷ drop_last (y ∷ xs)

module _ {F : Type 0} where
  -- The loop that draws a line at each time at which the replicas grew, from the previous count.
  unfoldable pub mark_scale_ups : ℤ → List F → List ℤ → List F
  mark_scale_ups prev (t ∷ ts) (r ∷ rs) =
      let rest = mark_scale_ups r ts rs in if ltb_ℤ prev r then t ∷ rest else rest
  mark_scale_ups prev _ _ = []

  -- The comprehension over `zip(elapsed[1:], replicas[:-1], replicas[1:])`.
  unfoldable pub scale_ups : List F → List ℤ → List ℤ → List F
  scale_ups (t ∷ ts) (prev ∷ ps) (curr ∷ cs) =
      let rest = scale_ups ts ps cs in if ltb_ℤ prev curr then t ∷ rest else rest
  scale_ups _ _ _ = []

-- What is drawn, and what is returned.
pub record Scaling (F : Type 0) : Type 0 where
  pub timeline : Timeline F
  pub marks : List F
  pub scale_up_times : List F
  pub start : F

module _ {F : Type 0} ⦃fl : Floats F⦄ where
  abbrev pub no_samples : Timeline F
  no_samples = record { elapsed = []; replicas = []; cpu_pct = [] }

  -- From the filled lists on. `ax1.step` refuses lists of different lengths.
  abbrev pub draw_scaling : Timeline F → List F → List ℤ → Result (Option (Scaling F))
  draw_scaling s [] rs = ok none
  draw_scaling s (e ∷ es) [] = raise value_error
  draw_scaling s (e ∷ es) (r ∷ rs) = ok (
      some (record {
        timeline = s;
        marks = mark_scale_ups r es rs;
        scale_up_times = scale_ups es (drop_last (r ∷ rs)) rs;
        start = e;
      }))

  abbrev pub finish_scaling : Progress F → Result (Option (Scaling F))
  finish_scaling (s, some e) = raise e
  finish_scaling (s, none) = draw_scaling s s.elapsed s.replicas

  abbrev pub scaling_of_text : Decoder F → Option Chars → Result (Option (Scaling F))
  scaling_of_text loads none = ok none
  scaling_of_text loads (some text) =
      finish_scaling (read_timeline loads no_samples (lines_of text))

  unfoldable pub fig_hpa_scaling : Decoder F → Disk → Result (Option (Scaling F))
  unfolding read_timeline read_line
  fig_hpa_scaling loads disk = scaling_of_text loads (disk "hpa-scaling-timeline.jsonl")
