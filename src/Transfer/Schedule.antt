-- ===== src/Transfer/Schedule.antt =====
-- tema1/run_experiments.py, which runs the client once for each file, protocol and block size, and
-- the arguments that tema1/client/src/main.rs and tema1/shared/src/lib.rs accept.
pub mod Accepted
use mathlib.Core.List.{flatten}
use laborator_pcd.Base.{
  ℕ, suc, String, str_eq, Bool, true, false, ◌&&◌, ◌||◌, if◌then◌else◌, leb, ltb, ◌==◌, Option,
  none, some, List, [], ◌∷◌, ◌++◌, map, ◌+◌, ◌*◌, ◌-◌,
}
use laborator_pcd.Base.Chars.{Chars, codes}
use laborator_pcd.Py.{is_digit}

abbrev pub protocols : List String
protocols = "tcp" ∷ "udp" ∷ "udp-stop-and-wait" ∷ "quic" ∷ "quic-stop-and-wait" ∷ []

-- A block size, and `str` of it.
abbrev pub BlockSize : Type 0
BlockSize = ℕ × String

abbrev pub quic_block_sizes : List BlockSize
quic_block_sizes = (512, "512") ∷ (1024, "1024") ∷ []

abbrev pub block_sizes : List BlockSize
block_sizes = (512, "512") ∷ (1024, "1024") ∷ (16384, "16384") ∷ (60000, "60000") ∷ []

-- FILES, the labels with their paths.
abbrev pub data_files : List (String × String)
data_files = ("medium", "client/data/medium") ∷ ("large", "client/data/large") ∷ []

abbrev pub binary_path : String
binary_path = "target/release/client"

abbrev pub Command : Type 0
Command = List String

-- `cmd` of run_experiment.
unfoldable pub command : String → BlockSize → String → Command
command protocol (_, block_size) file_path =
    binary_path ∷ "--transport" ∷ protocol ∷ "--block-size" ∷ block_size ∷ "--file-path" ∷ file_path
    ∷ []

-- How `subprocess.run` ends: a code with the two outputs, TimeoutExpired, or another exception.
pub data Ending : Type 0 where
  exited : ℕ → String → String → Ending
  timed_out : Ending
  failed : String → Ending

-- What the script does, in order; `printed` holds what distinguishes a message.
pub data Event : Type 0 where
  started : Command → Event
  printed : String → Event
  slept : Event

-- The client is run from outside: its ending may turn on all that has happened before.
abbrev pub Client : Type 0
Client = List Event → Command → Ending

abbrev pub report : Ending → Event
report (exited code stdout stderr) = printed (if code == 0 then stdout else stderr)
report timed_out = printed "Experiment timed out."
report (failed e) = printed e

-- `run_experiment`, after the events so far.
unfoldable pub run_experiment : Client → List Event → Command → List Event
run_experiment client past cmd =
    let before = past ++ (started cmd ∷ []) in before ++ (report (client before cmd) ∷ [])

abbrev pub is_quic : String → Bool
is_quic protocol = str_eq protocol "quic" || str_eq protocol "quic-stop-and-wait"

abbrev pub sizes_for : String → List BlockSize
sizes_for protocol = if is_quic protocol then quic_block_sizes else block_sizes

-- The innermost loop, and those around it.
unfoldable pub run_sizes : Client → String → String → List BlockSize → List Event → List Event
unfolding run_experiment
run_sizes client path protocol [] past = past
run_sizes client path protocol (size ∷ sizes) past =
    run_sizes client path protocol sizes
      (run_experiment client past (command protocol size path) ++ (slept ∷ []))

unfoldable pub run_protocols : Client → String → List String → List Event → List Event
unfolding run_sizes
run_protocols client path [] past = past
run_protocols client path (protocol ∷ rest) past =
    run_protocols client path rest (run_sizes client path protocol (sizes_for protocol) past)

unfoldable pub run_files : Client → List (String × String) → List Event → List Event
unfolding run_protocols
run_files client [] past = past
run_files client ((_, path) ∷ rest) past =
    run_files client rest (run_protocols client path protocols past)

-- The first file that is missing.
abbrev pub missing : (String → Bool) → List (String × String) → Option String
missing exists [] = none
missing exists ((label, path) ∷ rest) = if exists path then missing exists rest else some label

abbrev pub run_all : Client → Bool → Option String → List Event
run_all client built (some label) = printed label ∷ []
run_all client built none =
    if built
    then run_files client data_files (printed "Starting experiments." ∷ [])
    else printed binary_path ∷ []

unfoldable pub main : (String → Bool) → Client → List Event
unfolding run_files
main exists client = run_all client (exists binary_path) (missing exists data_files)

-- The client's side.
pub data Transport : Type 0 where
  tcp : Transport
  udp : Transport
  udp_stop_and_wait : Transport
  quic : Transport
  quic_stop_and_wait : Transport

unfoldable pub from_str : String → Option Transport
from_str s =
    if str_eq s "tcp"
    then some tcp
    else if str_eq s "udp"
    then some udp
    else if str_eq s "udp-stop-and-wait"
    then some udp_stop_and_wait
    else if str_eq s "quic"
    then some quic
    else if str_eq s "quic-stop-and-wait"
    then some quic_stop_and_wait
    else none

-- ADDRESSES: where the server of a transport listens.
abbrev address_of : Transport → String
address_of tcp = "127.0.0.1:8080"
address_of udp = "127.0.0.1:8081"
address_of udp_stop_and_wait = "127.0.0.1:8082"
address_of quic = "127.0.0.1:8083"
address_of quic_stop_and_wait = "127.0.0.1:8084"

pub record Args : Type 0 where
  pub transport : Transport
  pub block_size : ℕ
  pub file_path : String

-- The digits of a number, after those that make `acc`.
unfoldable pub number_from : ℕ → Chars → Option ℕ
number_from acc [] = some acc
number_from acc (c ∷ cs) = if is_digit c then number_from (acc * 10 + (c - b'0')) cs else none

-- A whole number as Rust parses it, but for negative ones, which no option takes.
unfoldable pub parse_number : Chars → Option ℕ
unfolding number_from
parse_number [] = none
parse_number (c ∷ []) = number_from 0 (c ∷ [])
parse_number (c ∷ d ∷ cs) = number_from 0 (if c == b'+' then d ∷ cs else c ∷ d ∷ cs)

abbrev in_range : Option ℕ → Option ℕ
in_range none = none
in_range (some n) = if leb 1 n && ltb n 65535 then some n else none

-- `value_parser!(u32).range(1..65535)`
unfoldable pub block_size_arg : String → Option ℕ
unfolding parse_number
block_size_arg s = in_range (parse_number (codes s))

abbrev args_of : Option Transport → Option ℕ → String → Option Args
args_of (some t) (some n) path = some (record { transport = t; block_size = n; file_path = path })
args_of _ _ path = none

-- `Args::parse` of a command line that has the three options in this order.
unfoldable pub parse_args : Command → Option Args
unfolding from_str block_size_arg
parse_args (_ ∷ o1 ∷ transport ∷ o2 ∷ size ∷ o3 ∷ path ∷ []) =
    if str_eq o1 "--transport" && str_eq o2 "--block-size" && str_eq o3 "--file-path"
    then args_of (from_str transport) (block_size_arg size) path
    else none
parse_args _ = none
