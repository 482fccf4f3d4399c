-- ===== src/Paper/Drawn/Total.antt =====
-- When project/analysis/plot_paper_figures.py runs to its end.
use mathlib.Core.Path.{subst}
use laborator_pcd.Base.{
  ℤ, true, ◌∙◌, sym, ◌≡◌, refl, ap, inl, inr, Bool-cases, str_eq, pos, Option, some, none, List, [],
  ◌∷◌, ◌++◌, map, All, All₂, String,
}
use laborator_pcd.Py.{
  Json, Floats, Disk, Decoder, IgnoresBlanks, Result, ok, raise, overflow_error, or_raise, for_each,
  ok-injective, for_each-total, to_number,
}
use laborator_pcd.Numpy.{Numpy}
use laborator_pcd.Policies.{policies}
use laborator_pcd.Drawing.{Call, Run, emit, lift, ◌>>=◌, subplots}
use laborator_pcd.Drawing.Saving.{saved}
use laborator_pcd.Paper.Load.{Table, load_fault_data}
use laborator_pcd.Paper.Load.Safety.{AreJsonFiles, load_all_metrics-total, IsRow}
use laborator_pcd.Paper.Figures.Complete.{figures-total, error_rows-total, print_summary-total}
use laborator_pcd.Paper.Scaling.{Scaling, fig_hpa_scaling}
use laborator_pcd.Paper.Latency.{Bin, Clock, fig_hpa_latency_timeseries}
use laborator_pcd.Paper.Calls.{
  ScaleUps, checked_limit, to_floats, cpu_limit, scaling_lines, scaling_calls, recovery_bars,
  p95_latency_calls, throughput_calls, recovery_calls, p50_calls, error_calls, latency_calls,
}
use laborator_pcd.Paper.Drawn.{
  draw_p95_latency, draw_throughput, draw_fault_recovery, draw_p50_vs_p95, draw_error_rate,
  draw_hpa_scaling, draw_hpa_latency, draw_if_scaling, draw_bins, get_or_nought, recovery_limit,
  draw_figures, draw_scaled, above, main, limit_of,
}
use laborator_pcd.Paper.Drawn.Each.{always, if_scaling, if_bins}
use laborator_pcd.Paper.Drawn.Saved.{main-saved}

-- A recovery time is a number that has a float.
abbrev pub IsTime : {F : Type 0} ⦃fl : Floats F⦄ → Json F → Type 0
unfolding to_number
IsTime {F} v = (x : F) × (to_number v ≡ ok x)

-- A run that ends with a value.
record Returns {F A : Type 0} (r : Run F A) : Type 0 where
  value : A
  result : r.1 ≡ ok value

Returns-bind :
    {F A B : Type 0} {r : Run F A} {next : A → Run F B}
    → Returns r
    → ((a : A) → r.1 ≡ ok a → Returns (next a))
    → Returns (r >>= next)
Returns-bind {r = (calls, raise e)} first rest = absurd (cc first.result)
Returns-bind {r = (calls, ok a)} first rest =
    let more = rest a refl in record { value = more.value; result = more.result }

Returns-then :
    {F A B : Type 0} {r : Run F A} {rest : Run F B}
    → Returns r
    → Returns rest
    → Returns (r >>= λ _. rest)
Returns-then {rest = rest} first later = Returns-bind {next = λ _. rest} first (λ _ _. later)

Returns-emit : {F : Type 0} (calls : List (Call F)) → Returns {F = F} (calls, ok tt)
Returns-emit calls = record { value = tt; result = refl }

-- A computation that draws nothing, and what follows from its value.
Returns-after :
    {F A B : Type 0} {r : Result A} (next : A → Run F B)
    → (a : A) × (r ≡ ok a)
    → ((a : A) → r ≡ ok a → Returns (next a))
    → Returns (lift r >>= next)
Returns-after {r = raise e} next (a, h) rest = absurd (cc h)
Returns-after {r = ok a} next found rest =
    let more = rest a refl in record { value = more.value; result = more.result }

-- A figure: calls, a computation, and calls.
Returns-figure :
    {F A : Type 0} (first : List (Call F)) (last : A → List (Call F)) {r : Result A}
    → (a : A) × (r ≡ ok a)
    → Returns (emit first >>= λ _. lift r >>= λ a. emit (last a))
Returns-figure first last found =
    Returns-then (Returns-emit first)
      (Returns-after (λ a. emit (last a)) found (λ a _. Returns-emit (last a)))

module _ {F : Type 0} ⦃fl : Floats F⦄ where
  checked_limit-total : (x : F) → fl.is_finite x ≡ true → (y : F) × (checked_limit x ≡ ok y)
  checked_limit-total x h = (x, rw h refl)

  -- The upper limit of the axis over the recovery times is finite.
  unfoldable pub HasTimeLimit : List (String × Json F) → Type 0
  unfolding to_number get_or_nought
  HasTimeLimit found =
      (xs : List F)
      → for_each to_number (map (get_or_nought found) policies) ≡ ok xs
      → fl.is_finite (above xs) ≡ true

  -- If the autoscaling is drawn, its replica counts have floats, and the upper limit of its second
  -- axis is finite.
  abbrev pub IsDrawable : Numpy F → Option (Scaling F) → Type 0
  IsDrawable np none = Unit
  IsDrawable np (some s) =
      All (λ r. (x : F) × (fl.of_int r ≡ some x)) s.timeline.replicas
      × (fl.is_finite (cpu_limit np s.timeline) ≡ true)

  to_floats-total :
      (replicas : List ℤ)
      → All (λ r. (x : F) × (fl.of_int r ≡ some x)) replicas
      → (xs : List F) × (to_floats replicas ≡ ok xs)
  unfolding for_each
  to_floats-total [] h = ([], refl)
  to_floats-total (r ∷ rs) ((x, e), h) =
      let (xs, es) = to_floats-total rs h in (x ∷ xs, rw (e, es) refl)

  get_or_nought-IsTime :
      (found : List (String × Json F)) (key : String) {zero : F}
      → fl.of_int (pos 0) ≡ some zero
      → All (λ r. IsTime r.1) found
      → IsTime (get_or_nought found key)
  unfolding get_or_nought to_number
  get_or_nought-IsTime [] key {zero} z h = (zero, ap (or_raise overflow_error) z)
  get_or_nought-IsTime ((k, v) ∷ rest) key z h = elim (Bool-cases (str_eq k key)) [
    | inl e ↦ rw e h.0
    | inr e ↦ rw e (get_or_nought-IsTime rest key z h.1)
  ]

  recovery_limit-total :
      (found : List (String × Json F)) {zero : F}
      → fl.of_int (pos 0) ≡ some zero
      → All (λ r. IsTime r.1) found
      → HasTimeLimit found
      → (x : F) × (recovery_limit (map (get_or_nought found) policies) ≡ ok x)
  unfolding recovery_limit HasTimeLimit
  recovery_limit-total found z h finite =
      let vals = map (get_or_nought found) policies in
      let (xs, e) = for_each-total to_number vals (
        get_or_nought-IsTime found "rr" z h,
        (
          get_or_nought-IsTime found "least-request" z h,
          (
            get_or_nought-IsTime found "ring-hash" z h,
            (get_or_nought-IsTime found "maglev" z h, tt),
          ),
        ),
      ) in
      let (limit, checked) = checked_limit-total (above xs) (finite xs e) in
      (limit, ap limit_of e ∙ checked)

  -- The figures over a table that was loaded.
  module _ (np : Numpy F) (table : Table F) (rows : All₂ IsRow policies table) where
    draw_p95_latency-Returns : Returns (draw_p95_latency table)
    unfolding draw_p95_latency
    draw_p95_latency-Returns =
        Returns-figure (subplots 1 ∷ []) p95_latency_calls (figures-total table rows np).0

    draw_throughput-Returns : Returns (draw_throughput table)
    unfolding draw_throughput
    draw_throughput-Returns =
        Returns-figure (subplots 1 ∷ []) throughput_calls (figures-total table rows np).1

    draw_p50_vs_p95-Returns : Returns (draw_p50_vs_p95 table)
    unfolding draw_p50_vs_p95
    draw_p50_vs_p95-Returns =
        Returns-figure (subplots 1 ∷ []) p50_calls (figures-total table rows np).2

    draw_error_rate-Returns : Returns (draw_error_rate np table)
    unfolding draw_error_rate
    draw_error_rate-Returns =
        Returns-figure (subplots 1 ∷ []) (λ m. error_calls (np.max_of m) m)
          (error_rows-total table rows)

  draw_fault_recovery-Returns :
      (found : List (String × Json F)) {zero : F}
      → fl.of_int (pos 0) ≡ some zero
      → All (λ r. IsTime r.1) found
      → HasTimeLimit found
      → Returns (draw_fault_recovery found)
  unfolding draw_fault_recovery
  draw_fault_recovery-Returns found z times finite =
      let vals = map (get_or_nought found) policies in
      Returns-figure (recovery_bars vals) (recovery_calls vals)
        (recovery_limit-total found z times finite)

  draw_scaled-Returns :
      (np : Numpy F) (s : Scaling F) → IsDrawable np (some s) → Returns (draw_scaled np s)
  draw_scaled-Returns np s (floats, finite) = Returns-then (Returns-emit (subplots 1 ∷ [])) (
      Returns-after (λ _. _) (to_floats-total s.timeline.replicas floats)
        (λ _ _.
          Returns-figure (scaling_lines s.timeline) (scaling_calls s)
            (checked_limit-total _ finite)))

  draw_if_scaling-Returns :
      (np : Numpy F) (s : Option (Scaling F)) → IsDrawable np s → Returns (draw_if_scaling np s)
  draw_if_scaling-Returns np none h = record { value = none; result = refl }
  draw_if_scaling-Returns np (some s) h =
      Returns-then (draw_scaled-Returns np s h)
        (record { value = some (s.scale_up_times, s.start); result = refl })

  draw_bins-Returns : (info : ScaleUps F) (bins : List (Bin F)) → Returns (draw_bins info bins)
  draw_bins-Returns info [] = Returns-emit []
  draw_bins-Returns info (b ∷ bs) = Returns-emit (latency_calls info (b ∷ bs))

  module _ (np : Numpy F) (clock : Clock) (loads : Decoder F) (disk : Disk)
      (law : IgnoresBlanks loads) (files : AreJsonFiles disk) {zero : F}
      (zero_float : fl.of_int (pos 0) ≡ some zero) (found : List (String × Json F))
      (read : load_fault_data loads disk ≡ ok found) (times : All (λ r. IsTime r.1) found)
      (limit : HasTimeLimit found) (s : Option (Scaling F))
      (scaled : fig_hpa_scaling loads disk ≡ ok s) (drawable : IsDrawable np s)
      (bins : List (Bin F))
      (binned : fig_hpa_latency_timeseries np clock loads disk ≡ ok bins) where
    draw_hpa-Returns :
        Returns
          (draw_hpa_scaling np loads disk >>= λ info. draw_hpa_latency np clock loads disk info)
    unfolding draw_hpa_scaling draw_hpa_latency
    draw_hpa-Returns =
        Returns-bind {next = λ info. draw_hpa_latency np clock loads disk info}
          (Returns-after (draw_if_scaling np) (s, scaled)
            (λ s' e.
              draw_if_scaling-Returns np s'
                (subst (IsDrawable np) (ok-injective (sym scaled ∙ e)) drawable)))
          (λ info _.
            Returns-after (draw_bins info) (bins, binned) (λ bins _. draw_bins-Returns info bins))

    draw_figures-Returns :
        (table : Table F)
        → All₂ IsRow policies table
        → Returns (draw_figures np clock loads disk table found)
    unfolding draw_figures
    draw_figures-Returns table rows = Returns-then (draw_p95_latency-Returns np table rows) (
        Returns-then (draw_throughput-Returns np table rows) (
          Returns-then (draw_fault_recovery-Returns found zero_float times limit) (
            Returns-then (draw_p50_vs_p95-Returns np table rows)
              (Returns-then (draw_error_rate-Returns np table rows) draw_hpa-Returns))))

    main-ends : (main np clock loads disk).1 ≡ ok tt
    unfolding main
    main-ends =
        let (table, loaded, rows) = load_all_metrics-total np loads disk law files in
        let (lines, printed) = print_summary-total table rows in
        rw (loaded, read, printed) (draw_figures-Returns table rows).result

    -- plot_paper_figures.py runs to its end and saves all its figures, if no file of the results
    -- directory holds white space that JSON does not allow, the decoder ignores white space around
    -- a value, the fault results can be read and their recovery times are numbers, 0 has a float,
    -- the autoscaling timeline and the latency recording can be read, the replica counts have
    -- floats, and the limits that are computed for the axes of the recovery times and of the
    -- utilisation are finite; whatever else the files hold, and whichever of them are missing.
    pub main-total :
        ((main np clock loads disk).1 ≡ ok tt)
        × (saved (main np clock loads disk).0 ≡ always ++ (if_scaling s ++ if_bins bins))
    main-total = (main-ends, (main-saved np clock loads disk s scaled bins binned main-ends).1)
