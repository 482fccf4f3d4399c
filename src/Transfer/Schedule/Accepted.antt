-- ===== src/Transfer/Schedule/Accepted.antt =====
-- Which experiments tema1/run_experiments.py runs, and that the client accepts them.
use mathlib.Core.Path.{subst}
use mathlib.Core.List.{flatten, append_assoc, append-nil}
use laborator_pcd.Base.{
  ◌≡◌, refl, sym, ap, ◌∙◌, inl, inr, String, Bool, true, false, leb, Bool-cases, ◌&&◌,
  if◌then◌else◌, Option, none, some, List, [], ◌∷◌, ◌++◌, map, All,
}
use laborator_pcd.Transfer.Schedule.{
  protocols, BlockSize, data_files, binary_path, Command, command, Ending, Event, started, printed,
  slept, Client, report, exited, timed_out, failed, run_experiment, sizes_for, run_sizes,
  run_protocols, run_files, main, Transport, quic, quic_stop_and_wait, from_str, Args,
  block_size_arg, parse_number, number_from, parse_args,
}

-- The commands that are started.
unfoldable pub commands : List Event → List Command
commands [] = []
commands (started cmd ∷ es) = cmd ∷ commands es
commands (printed _ ∷ es) = commands es
commands (slept ∷ es) = commands es

-- One for each file, protocol and block size, files outermost.
abbrev of_protocol : String → String → List Command
of_protocol path protocol = map (λ size. command protocol size path) (sizes_for protocol)

unfoldable schedule_of : String → List Command
unfolding flatten
schedule_of path = flatten (map (of_protocol path) protocols)

unfoldable pub schedule : List Command
unfolding schedule_of flatten
schedule = flatten (map (λ f. schedule_of f.1) data_files)

commands-append : (es fs : List Event) → commands (es ++ fs) ≡ commands es ++ commands fs
unfolding commands
commands-append [] fs = refl
commands-append (started cmd ∷ es) fs = ap (◌∷◌ cmd) (commands-append es fs)
commands-append (printed _ ∷ es) fs = commands-append es fs
commands-append (slept ∷ es) fs = commands-append es fs

commands-report : (e : Ending) → commands (report e ∷ []) ≡ []
unfolding commands
commands-report (exited code stdout stderr) = refl
commands-report timed_out = refl
commands-report (failed e) = refl

-- However an experiment ends, it is one command.
commands-run_experiment :
    (client : Client) (past : List Event) (cmd : Command)
    → commands (run_experiment client past cmd) ≡ commands past ++ (cmd ∷ [])
unfolding run_experiment
commands-run_experiment client past cmd =
    let before = past ++ (started cmd ∷ []) in
    commands-append before (report (client before cmd) ∷ [])
    ∙ ap (λ r. commands before ++ r) (commands-report (client before cmd))
    ∙ append-nil (commands before)
    ∙ (commands-append past (started cmd ∷ []) ∙ unfold commands in refl)

slept_only : (cs : List Command) → cs ++ commands (slept ∷ []) ≡ cs
unfolding commands
slept_only cs = append-nil cs

commands-run_sizes :
    (client : Client) (path protocol : String) (sizes : List BlockSize) (past : List Event)
    → commands (run_sizes client path protocol sizes past)
      ≡ commands past ++ map (λ size. command protocol size path) sizes
unfolding run_sizes
commands-run_sizes client path protocol [] past = sym (append-nil (commands past))
commands-run_sizes client path protocol (size ∷ sizes) past =
    let cmd = command protocol size path in
    let ran = run_experiment client past cmd in
    commands-run_sizes client path protocol sizes (ran ++ (slept ∷ []))
    ∙ ap (λ r. r ++ map (λ size. command protocol size path) sizes)
        (commands-append ran (slept ∷ [])
          ∙ ap (λ r. r ++ commands (slept ∷ [])) (commands-run_experiment client past cmd)
          ∙ slept_only (commands past ++ (cmd ∷ [])))
    ∙ append_assoc (commands past) (cmd ∷ []) _

commands-run_protocols :
    (client : Client) (path : String) (ps : List String) (past : List Event)
    → commands (run_protocols client path ps past)
      ≡ commands past ++ flatten (map (of_protocol path) ps)
unfolding run_protocols flatten
commands-run_protocols client path [] past = sym (append-nil (commands past))
commands-run_protocols client path (p ∷ ps) past =
    commands-run_protocols client path ps (run_sizes client path p (sizes_for p) past)
    ∙ ap (λ r. r ++ flatten (map (of_protocol path) ps))
        (commands-run_sizes client path p (sizes_for p) past)
    ∙ append_assoc (commands past) (of_protocol path p) _

commands-run_files :
    (client : Client) (files : List (String × String)) (past : List Event)
    → commands (run_files client files past)
      ≡ commands past ++ flatten (map (λ f. schedule_of f.1) files)
unfolding run_files schedule_of flatten
commands-run_files client [] past = sym (append-nil (commands past))
commands-run_files client ((label, path) ∷ files) past =
    commands-run_files client files (run_protocols client path protocols past)
    ∙ ap (λ r. r ++ flatten (map (λ f. schedule_of f.1) files))
        (commands-run_protocols client path protocols past)
    ∙ append_assoc (commands past) (schedule_of path) _

-- Both data files and the client are there.
abbrev pub is_ready : (String → Bool) → Bool
is_ready exists = exists "client/data/medium" && exists "client/data/large" && exists binary_path

-- run_experiments.py starts every experiment of the schedule once, in order, however the earlier
-- ones end, if both data files and the client exist, and starts none if one is missing.
pub commands-main :
    (exists : String → Bool) (client : Client)
    → commands (main exists client) ≡ (if is_ready exists then schedule else [])
unfolding main commands schedule
commands-main exists client = elim (Bool-cases (exists "client/data/medium")) [
  | inr m ↦ rw m refl
  | inl m ↦ elim (Bool-cases (exists "client/data/large")) [
    | inr l ↦ rw (m, l) refl
    | inl l ↦ elim (Bool-cases (exists binary_path)) [
      | inr b ↦ rw (m, l, b) refl
      | inl b ↦
          rw (m, l, b) (commands-run_files client data_files (printed "Starting experiments." ∷ []))
    ]
  ]
]

-- The client parses the command, and a QUIC block fits a datagram of 1200 bytes with its sequence
-- number.
abbrev is_quic_transport : Transport → Bool
is_quic_transport quic = true
is_quic_transport quic_stop_and_wait = true
is_quic_transport _ = false

abbrev pub is_accepted : Option Args → Bool
is_accepted none = false
is_accepted (some a) = if is_quic_transport a.transport then leb a.block_size 1024 else true

unfoldable every : List Command → Bool
every [] = true
every (cmd ∷ rest) = is_accepted (parse_args cmd) && every rest

every-All :
    (cmds : List Command)
    → every cmds ≡ true
    → All (λ cmd. is_accepted (parse_args cmd) ≡ true) cmds
unfolding every
every-All [] h = tt
every-All (cmd ∷ rest) h = elim (Bool-cases (is_accepted (parse_args cmd))) [
  | inl e ↦ (e, every-All rest (rw e at h))
  | inr e ↦ absurd (cc (rw e at h))
]

schedule-every : every schedule ≡ true
unfolding schedule schedule_of flatten command parse_args from_str block_size_arg parse_number
    number_from every
schedule-every = refl

-- The client accepts every command that run_experiments.py starts: it knows the protocol and takes
-- the block size, which is at most 1024 where the protocol runs over QUIC datagrams.
pub experiments_accepted :
    (exists : String → Bool) (client : Client)
    → All (λ cmd. is_accepted (parse_args cmd) ≡ true) (commands (main exists client))
experiments_accepted exists client =
    subst (All (λ cmd. is_accepted (parse_args cmd) ≡ true)) (sym (commands-main exists client))
      (chosen (is_ready exists))
  where
    chosen :
        (b : Bool) → All (λ cmd. is_accepted (parse_args cmd) ≡ true) (if b then schedule else [])
    chosen true = every-All schedule schedule-every
    chosen false = tt
