-- ===== src/Summary/Rows.antt =====
-- `build_rows` of project/analysis/summary_table.py: which rows there are, and what a missing
-- results file gives.
use mathlib.Core.List.{flatten, map-append}
use Prim.Native.String.{String}
use laborator_pcd.Base.{
  ◌≡◌, refl, sym, ap, ◌∙◌, inl, inr, some, List, [], ◌∷◌, ◌++◌, map, Option-cases,
}
use laborator_pcd.Base.Chars.{Chars}
use laborator_pcd.Py.{
  Result, ok, raise, bind-eq-ok, ok-injective, Json, null, obj, end, get, Disk, Decoder, for_each,
  map-for_each, for_each-total, lookup_or, Fields, or_raise, json_decode_error,
}
use laborator_pcd.Policies.{policies, scenarios, policy_labels, label_of}
use laborator_pcd.Summary.{Row, build_row, build_rows, load_prom, read_or_empty, prom_path}

abbrev text_of : Result String → String
text_of (ok label) = label
text_of (raise _) = ""

-- The policy's label, where the dict has one.
abbrev label_text : String → String
label_text policy = text_of (label_of policy_labels policy)

abbrev pub heading : {F : Type 0} → Row F → String × String
heading r = (r.policy, r.scenario)

-- The labels of all policies, each with all scenarios.
abbrev pub headings : List (String × String)
headings = flatten (
    map (λ label. map (λ s. (label, s)) scenarios)
      ("Round Robin" ∷ "Least Request" ∷ "Ring Hash" ∷ "Maglev" ∷ []))

map-flatten {ℓ κ} :
    {A : Type ℓ} {B : Type κ} (f : A → B) (xss : List (List A))
    → map f (flatten xss) ≡ flatten (map (map f) xss)
unfolding flatten
map-flatten f [] = refl
map-flatten f (xs ∷ xss) =
    map-append f xs (flatten xss) ∙ ap (λ r. map f xs ++ r) (map-flatten f xss)

module _ {F : Type 0} (loads : Decoder F) (disk : Disk) where
  -- A row carries the label of its policy, and its scenario.
  build_row-heading :
      (policy scenario : String) (r : Row F)
      → build_row loads disk policy scenario ≡ ok r
      → heading r ≡ (label_text policy, scenario)
  unfolding build_row
  build_row-heading policy scenario r h =
      let (prom, _, h1) = bind-eq-ok (load_prom loads disk policy scenario) _ h in
      let (lat, _, h2) = bind-eq-ok (get prom "latency_ms" (obj end)) _ h1 in
      let (label, found, h3) = bind-eq-ok (label_of policy_labels policy) _ h2 in
      let (_, _, h4) = bind-eq-ok (get lat "p50" null) _ h3 in
      let (_, _, h5) = bind-eq-ok (get lat "p95" null) _ h4 in
      let (_, _, h6) = bind-eq-ok (get lat "p99" null) _ h5 in
      let (_, _, h7) = bind-eq-ok (get prom "throughput_rps" null) _ h6 in
      let (_, _, h8) = bind-eq-ok (get prom "errors_5xx_rps" null) _ h7 in
      ap heading (sym (ok-injective h8)) ∙ ap (λ l. (l, scenario)) (sym (ap text_of found))

  -- The rows are the sixteen pairs of a policy's label and a scenario, policies outermost.
  pub build_rows-headings :
      {rows : List (Row F)} → build_rows loads disk ≡ ok rows → map heading rows ≡ headings
  unfolding build_rows flatten label_of
  build_rows-headings {rows} h =
      let (blocks, all, e) =
        bind-eq-ok (for_each (λ policy. for_each (build_row loads disk policy) scenarios) policies)
          _ h in
      let block =
        λ (policy : String) (rs : List (Row F))
            (e : for_each (build_row loads disk policy) scenarios ≡ ok rs).
          map-for_each (build_row loads disk policy) heading (λ s. (label_text policy, s)) scenarios
            (build_row-heading policy) e in
      ap (map heading) (sym (ok-injective e))
      ∙ map-flatten heading blocks
      ∙ ap flatten (
          map-for_each _ (map heading) (λ policy. map (λ s. (label_text policy, s)) scenarios)
            policies block all)

-- A decoded results file with its latencies in a dict, or with none.
abbrev pub IsReport : {F : Type 0} → Json F → Type 0
IsReport {F} v = (fs ls : Fields F) × (v ≡ obj fs) × (lookup_or fs "latency_ms" (obj end) ≡ obj ls)

module _ {F : Type 0} (loads : Decoder F) (disk : Disk) where
  -- Every results file that exists decodes to a report.
  abbrev pub HoldsReports : Type 0
  HoldsReports =
      (policy scenario : String) (text : Chars)
      → disk (prom_path policy scenario) ≡ some text
      → (v : Json F) × (loads text ≡ some v) × IsReport v

  load_prom-total :
      HoldsReports
      → (policy scenario : String)
      → (v : Json F) × (load_prom loads disk policy scenario ≡ ok v) × IsReport v
  unfolding load_prom lookup_or
  load_prom-total reports policy scenario = elim (Option-cases (disk (prom_path policy scenario))) [
    | inl e ↦ (obj end, ap (read_or_empty loads) e, (end, end, refl, refl))
    | inr (text, e) ↦
        let (v, decoded, report) = reports policy scenario text e in
        (v, ap (read_or_empty loads) e ∙ ap (or_raise json_decode_error) decoded, report)
  ]

  build_row-total :
      HoldsReports
      → (policy scenario : String) {label : String} → label_of policy_labels policy ≡ ok label
      → (r : Row F) × (build_row loads disk policy scenario ≡ ok r)
  unfolding build_row get
  build_row-total reports policy scenario {label} found =
      let (v, loaded, (fs, ls, ev, el)) = load_prom-total reports policy scenario in
      (
        record {
          policy = label;
          scenario = scenario;
          p50 = lookup_or ls "p50" null;
          p95 = lookup_or ls "p95" null;
          p99 = lookup_or ls "p99" null;
          rps = lookup_or fs "throughput_rps" null;
          err5xx = lookup_or fs "errors_5xx_rps" null;
        },
        rw (loaded, ev, get, el, found),
      )

  -- build_rows raises nothing if every results file that exists decodes to a report, however many
  -- files are missing.
  pub build_rows-total : HoldsReports → (rows : List (Row F)) × (build_rows loads disk ≡ ok rows)
  unfolding build_rows label_of
  build_rows-total reports =
      let block = λ (policy label : String) (found : label_of policy_labels policy ≡ ok label).
        let row = λ (s : String). build_row-total reports policy s found in
        for_each-total (build_row loads disk policy) scenarios
          (row "steady", (row "burst", (row "heavy", (row "spike", tt)))) in
      let (blocks, e) =
        for_each-total (λ policy. for_each (build_row loads disk policy) scenarios) policies
          (
            block "rr" "Round Robin" refl,
            (
              block "least-request" "Least Request" refl,
              (block "ring-hash" "Ring Hash" refl, (block "maglev" "Maglev" refl, tt)),
            ),
          ) in
      (flatten blocks, rw e)
