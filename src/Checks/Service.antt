-- ===== src/Checks/Service.antt =====
-- A run of the worker service with three requests: one is answered, one has a negative duration, one
-- still waits.
use laborator_pcd.Base.{pos, ◌≡◌, refl, Bool, false, true, some, [], ◌∷◌, ◌==◌, if◌then◌else◌}
use laborator_pcd.Base.Chars.{Chars, codes}
use laborator_pcd.Worker.{
  Seconds, State, started, Reaches, here, next, arrives, resumes, proceed, route, resume, Query,
  param, parse_u64, parse_digits, handle_work, handle_cpu, active_inc, record_done, delay_ms,
}
use laborator_pcd.Worker.Gauge.{IsConsistent, Reaches-IsConsistent}

-- Durations that are negative or not: only the sign is looked at.
abbrev is_positive : Chars → Bool
is_positive [] = true
is_positive (c ∷ cs) = if c == b'-' then false else true

abbrev signs : Seconds Bool
signs = record {
  parse_f64 = λ text. some (is_positive text);
  default_ = true;
  has_deadline = λ d. d;
}

abbrev minus_one : Query
minus_one = ("duration", codes "-1") ∷ []

abbrev first : State Bool
first = proceed (route signs 20 "/work" []) started

abbrev second : State Bool
second = proceed (route signs 20 "/cpu" minus_one) first

abbrev third : State Bool
third = resume (delay_ms 20) [] second

one_waits : second.waiting ≡ delay_ms 20 ∷ []
unfolding proceed route handle_work handle_cpu param parse_u64 parse_digits
one_waits = refl

run : Reaches signs 20 started (proceed (route signs 20 "/get" []) third)
run =
    next
      (next (next (next here (arrives "/work" [])) (arrives "/cpu" minus_one))
        (resumes [] [] (delay_ms 20) one_waits))
      (arrives "/get" [])

-- Nothing is in flight, and the gauge is not 0.
left_over : third.metrics.active ≡ pos 1
unfolding proceed route handle_work handle_cpu param parse_u64 parse_digits active_inc record_done
    resume
left_over = refl

Reaches-IsConsistent_example : IsConsistent (proceed (route signs 20 "/get" []) third)
Reaches-IsConsistent_example = Reaches-IsConsistent signs 20 run
