-- ===== src/Worker.antt =====
-- The worker service (project/worker/src/main.rs): its handlers, its three metrics, and the steps of
-- the service. A handler runs up to its `await`, where others run; it goes on when the wait is over,
-- or is dropped when the connection is closed. The build is a release: integers wrap around.
pub mod Gauge
use laborator_pcd.Base.{
  ℕ, zero, suc, ◌+◌, ◌-◌, ◌*◌, ◌^◌, ◌≡◌, ltb, leb, ◌==◌, ℤ, pos, negsuc, String, str_eq, Bool, ◌||◌,
  ◌&&◌, if◌then◌else◌, Option, none, some, List, [], ◌∷◌, ◌++◌,
}
use laborator_pcd.Base.Chars.{Chars}
use laborator_pcd.Transfer.Tcp.{add_u64}

pub data Endpoint : Type 0 where
  get work cpu : Endpoint

-- A counter for each endpoint; the pod is always the same, and so is the status.
pub record Counters : Type 0 where
  pub of_get : ℕ
  pub of_work : ℕ
  pub of_cpu : ℕ

abbrev pub count_of : Endpoint → Counters → ℕ
count_of get c = c.of_get
count_of work c = c.of_work
count_of cpu c = c.of_cpu

abbrev pub inc_counter : Endpoint → Counters → Counters
inc_counter get c = record c { of_get = add_u64 c.of_get 1 }
inc_counter work c = record c { of_work = add_u64 c.of_work 1 }
inc_counter cpu c = record c { of_cpu = add_u64 c.of_cpu 1 }

-- ACTIVE_REQUESTS, the number of observations of REQUEST_DURATION, and REQUESTS_TOTAL.
pub record Metrics : Type 0 where
  pub active : ℤ
  pub durations : Counters
  pub total : Counters

abbrev pub no_count : Counters
no_count = record { of_get = 0; of_work = 0; of_cpu = 0 }

abbrev pub no_metrics : Metrics
no_metrics = record { active = pos 0; durations = no_count; total = no_count }

-- `inc` and `dec` of a gauge
abbrev pub inc_gauge : ℤ → ℤ
inc_gauge (pos n) = pos (suc n)
inc_gauge (negsuc zero) = pos 0
inc_gauge (negsuc (suc n)) = negsuc n

abbrev pub dec_gauge : ℤ → ℤ
dec_gauge (pos zero) = negsuc 0
dec_gauge (pos (suc n)) = pos n
dec_gauge (negsuc n) = negsuc (suc n)

unfoldable pub active_inc : Metrics → Metrics
active_inc m = record m { active = inc_gauge m.active }

unfoldable pub record_done : Endpoint → Metrics → Metrics
record_done e m = record {
  active = dec_gauge m.active;
  durations = inc_counter e m.durations;
  total = inc_counter e m.total;
}

-- `"...".parse::<u64>()` of the digits that are left, after those that make a number.
unfoldable pub parse_digits : ℕ → Chars → Option ℕ
parse_digits n [] = some n
parse_digits n (c ∷ cs) =
    let n' = n * 10 + (c - b'0') in
    let rest = parse_digits n' cs in
    if leb b'0' c && leb c b'9' && ltb n' (2 ^ 64) then rest else none

-- A plus sign may come first, and a digit must.
unfoldable pub parse_u64 : Chars → Option ℕ
unfolding parse_digits
parse_u64 [] = none
parse_u64 (c ∷ []) = parse_digits 0 (c ∷ [])
parse_u64 (c ∷ d ∷ cs) = if c == b'+' then parse_digits 0 (d ∷ cs) else parse_digits 0 (c ∷ d ∷ cs)

-- Durations in seconds, as the standard library reads and adds them.
pub record Seconds (D : Type 0) : Type 0 where
  -- `"...".parse::<f64>()`
  pub parse_f64 : Chars → Option D
  -- 0.1
  pub default_ : D
  -- `Instant::now() + Duration::from_secs_f64(d)` does not panic.
  pub has_deadline : D → Bool

-- The part of a response's body that depends on the request.
pub data Body (D : Type 0) : Type 0 where
  pod : Body D
  delay_ms : ℕ → Body D
  duration : D → Body D

abbrev pub endpoint_of : {D : Type 0} → Body D → Endpoint
endpoint_of pod = get
endpoint_of (delay_ms n) = work
endpoint_of (duration d) = cpu

-- What a handler comes to before its first wait.
pub data Progress (D : Type 0) : Type 0 where
  done : Body D → Progress D
  waits : Body D → Progress D
  panics : Progress D

abbrev pub Query : Type 0
Query = List (String × Chars)

-- `params.get(key)`, of a map, whose keys are distinct
unfoldable pub param : Query → String → Option Chars
param [] key = none
param ((k, v) ∷ rest) key = if str_eq k key then some v else param rest key

-- `.and_then(|v| v.parse().ok()).unwrap_or(default)`
abbrev pub parsed_or : {A : Type 0} → A → (Chars → Option A) → Option Chars → A
parsed_or default parse none = default
parsed_or default parse (some v) = elim (parse v) [ none ↦ default | some a ↦ a ]

abbrev pub handle_get : {D : Type 0} → Progress D
handle_get = done pod

unfoldable pub handle_work : {D : Type 0} → ℕ → Query → Progress D
unfolding param parse_u64
handle_work base_delay_ms params =
    let total_ms = add_u64 base_delay_ms (parsed_or 0 parse_u64 (param params "ms")) in
    if ltb 0 total_ms then waits (delay_ms total_ms) else done (delay_ms total_ms)

module _ {D : Type 0} (seconds : Seconds D) where
  unfoldable pub handle_cpu : Query → Progress D
  unfolding param
  handle_cpu params =
      let d = parsed_or seconds.default_ seconds.parse_f64 (param params "duration") in
      if seconds.has_deadline d then waits (duration d) else panics

  -- The routes that count their requests.
  unfoldable pub route : ℕ → String → Query → Option (Progress D)
  unfolding handle_work handle_cpu
  route base_delay_ms path params =
      if str_eq path "/" || str_eq path "/get"
      then some handle_get
      else if str_eq path "/work"
      then some (handle_work base_delay_ms params)
      else if str_eq path "/cpu"
      then some (handle_cpu params)
      else none

-- The metrics, the handlers that wait, the responses that were sent, the last one first, and how
-- many requests ended in a panic or were dropped. The program keeps no such lists and no such number.
pub record State (D : Type 0) : Type 0 where
  pub metrics : Metrics
  pub waiting : List (Body D)
  pub responses : List (Body D)
  pub lost : ℕ

abbrev pub started : {D : Type 0} → State D
started = record { metrics = no_metrics; waiting = []; responses = []; lost = 0 }

-- The end of a handler.
abbrev pub respond : {D : Type 0} → Body D → Metrics → State D → State D
respond b m s = record s { metrics = record_done (endpoint_of b) m; responses = b ∷ s.responses }

-- A request that its handler has taken up to its first wait, its end or a panic. The routes without
-- metrics change nothing.
unfoldable pub proceed : {D : Type 0} → Option (Progress D) → State D → State D
unfolding active_inc record_done
proceed none s = s
proceed (some (done b)) s = respond b (active_inc s.metrics) s
proceed (some (waits b)) s = record s { metrics = active_inc s.metrics; waiting = b ∷ s.waiting }
proceed (some panics) s = record s { metrics = active_inc s.metrics; lost = suc s.lost }

-- A handler whose wait is over, and one that is dropped while it waits.
unfoldable pub resume : {D : Type 0} → Body D → List (Body D) → State D → State D
unfolding record_done
resume b others s = respond b s.metrics (record s { waiting = others })

unfoldable pub drop_ : {D : Type 0} → List (Body D) → State D → State D
drop_ others s = record s { waiting = others; lost = suc s.lost }

module _ {D : Type 0} (seconds : Seconds D) (base_delay_ms : ℕ) where
  pub data Step (s : State D) : State D → Type 0 where
    arrives :
        (path : String) (params : Query)
        → Step s (proceed (route seconds base_delay_ms path params) s)
    resumes :
        (before after : List (Body D)) (b : Body D)
        → s.waiting ≡ before ++ (b ∷ after)
        → Step s (resume b (before ++ after) s)
    is_dropped :
        (before after : List (Body D)) (b : Body D)
        → s.waiting ≡ before ++ (b ∷ after)
        → Step s (drop_ (before ++ after) s)

  pub data Reaches (s : State D) : State D → Type 0 where
    here : Reaches s s
    next : {t u : State D} → Reaches s t → Step t u → Reaches s u
