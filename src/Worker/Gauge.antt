-- ===== src/Worker/Gauge.antt =====
-- What the metrics of the worker service (project/worker/src/main.rs) say in every state that it
-- reaches.
use laborator_pcd.Base.{
  ℕ, suc, ◌+◌, ◌%◌, ◌^◌, ◌≡◌, refl, ap, ◌∙◌, arith, pos, Option, some, none, List, [], ◌∷◌, ◌++◌,
  length, length-append,
}
use laborator_pcd.Worker.{
  Endpoint, get, work, cpu, Counters, count_of, inc_counter, no_metrics, inc_gauge, dec_gauge,
  active_inc, record_done, Seconds, Body, endpoint_of, Progress, done, waits, panics, route, State,
  started, proceed, resume, drop_, Step, arrives, resumes, is_dropped, Reaches, here, next,
}

-- The number of responses from an endpoint.
abbrev pub hits : Endpoint → Endpoint → ℕ
hits get get = 1
hits work work = 1
hits cpu cpu = 1
hits e f = 0

abbrev pub answers : {D : Type 0} → Endpoint → List (Body D) → ℕ
answers e [] = 0
answers e (b ∷ bs) = hits e (endpoint_of b) + answers e bs

-- A counter shows a number, as far as 64 bits go.
abbrev Shows : ℕ → ℕ → Type 0
Shows n k = n ≡ k % 2 ^ 64

inc_counter-Shows :
    (e f : Endpoint) (c : Counters) (k : ℕ)
    → Shows (count_of e c) k
    → Shows (count_of e (inc_counter f c)) (hits e f + k)
inc_counter-Shows get get c k h = omega arith
inc_counter-Shows get work c k h = omega arith
inc_counter-Shows get cpu c k h = omega arith
inc_counter-Shows work get c k h = omega arith
inc_counter-Shows work work c k h = omega arith
inc_counter-Shows work cpu c k h = omega arith
inc_counter-Shows cpu get c k h = omega arith
inc_counter-Shows cpu work c k h = omega arith
inc_counter-Shows cpu cpu c k h = omega arith

-- The gauge shows the requests in flight and those that were lost; both counters of an endpoint
-- show its responses.
pub record IsConsistent {D : Type 0} (s : State D) : Type 0 where
  pub gauge : s.metrics.active ≡ pos (length s.waiting + s.lost)
  pub total : (e : Endpoint) → Shows (count_of e s.metrics.total) (answers e s.responses)
  pub durations : (e : Endpoint) → Shows (count_of e s.metrics.durations) (answers e s.responses)

module _ {D : Type 0} where
  started-IsConsistent : IsConsistent {D = D} started
  started-IsConsistent = record { gauge = refl; total = none_yet; durations = none_yet }
    where
      none_yet : (e : Endpoint) → Shows (count_of e no_metrics.total) 0
      none_yet get = refl
      none_yet work = refl
      none_yet cpu = refl

  proceed-IsConsistent :
      (p : Option (Progress D)) (s : State D) → IsConsistent s → IsConsistent (proceed p s)
  unfolding proceed active_inc record_done
  proceed-IsConsistent none s h = h
  proceed-IsConsistent (some (done b)) s h = record {
    gauge = ap (λ a. dec_gauge (inc_gauge a)) h.gauge;
    total = λ e. inc_counter-Shows e (endpoint_of b) s.metrics.total _ (h.total e);
    durations = λ e. inc_counter-Shows e (endpoint_of b) s.metrics.durations _ (h.durations e);
  }
  proceed-IsConsistent (some (waits b)) s h = record {
    gauge = ap inc_gauge h.gauge ∙ ap pos (omega arith);
    total = h.total;
    durations = h.durations;
  }
  proceed-IsConsistent (some panics) s h = record {
    gauge = ap inc_gauge h.gauge ∙ ap pos (omega arith);
    total = h.total;
    durations = h.durations;
  }

  -- One handler less waits.
  one_less :
      (s : State D) (before after : List (Body D)) (b : Body D)
      → s.waiting ≡ before ++ (b ∷ after)
      → length s.waiting ≡ suc (length (before ++ after))
  one_less s before after b e =
      ap length e ∙ omega (arith, length-append before (b ∷ after), length-append before after)

  resume-IsConsistent :
      (s : State D) (before after : List (Body D)) (b : Body D)
      → s.waiting ≡ before ++ (b ∷ after)
      → IsConsistent s
      → IsConsistent (resume b (before ++ after) s)
  unfolding resume record_done
  resume-IsConsistent s before after b e h =
      let in_flight : s.metrics.active ≡ pos (suc (length (before ++ after) + s.lost)) =
        h.gauge ∙ ap pos (omega (arith, one_less s before after b e)) in
      record {
        gauge = ap dec_gauge in_flight;
        total = λ f. inc_counter-Shows f (endpoint_of b) s.metrics.total _ (h.total f);
        durations = λ f. inc_counter-Shows f (endpoint_of b) s.metrics.durations _ (h.durations f);
      }

  drop_-IsConsistent :
      (s : State D) (before after : List (Body D)) (b : Body D)
      → s.waiting ≡ before ++ (b ∷ after)
      → IsConsistent s
      → IsConsistent (drop_ (before ++ after) s)
  unfolding drop_
  drop_-IsConsistent s before after b e h = record {
    gauge = h.gauge ∙ ap pos (omega (arith, one_less s before after b e));
    total = h.total;
    durations = h.durations;
  }

  module _ (seconds : Seconds D) (base_delay_ms : ℕ) where
    Step-IsConsistent :
        {s t : State D} → Step seconds base_delay_ms s t → IsConsistent s → IsConsistent t
    Step-IsConsistent {s} (arrives path params) h =
        proceed-IsConsistent (route seconds base_delay_ms path params) s h
    Step-IsConsistent {s} (resumes before after b e) h = resume-IsConsistent s before after b e h
    Step-IsConsistent {s} (is_dropped before after b e) h = drop_-IsConsistent s before after b e h

    -- In every state that the worker service reaches, whatever requests arrive and however their
    -- handlers are interleaved, the gauge of active requests is the number of those in flight and
    -- of those that panicked or were dropped, and for each endpoint both the counter of requests
    -- and the number of durations are the number of its responses, modulo 2^64.
    pub Reaches-IsConsistent :
        {s : State D} → Reaches seconds base_delay_ms started s → IsConsistent s
    Reaches-IsConsistent here = started-IsConsistent
    Reaches-IsConsistent (next past step) = Step-IsConsistent step (Reaches-IsConsistent past)
