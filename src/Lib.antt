-- ===== src/Lib.antt =====
-- Three programs: the worker service of a load-balancing testbed, project/worker, the analysis
-- scripts of the testbed, project/analysis, and the file transfer experiments of tema1, in which a
-- client sends a file to a server over TCP, UDP or QUIC.
--
-- In the testbed, experiments with four Envoy policies (rr, least-request, ring-hash, maglev) and
-- four load scenarios become tables and figures. A run leaves `prom-<policy>-<scenario>.json`,
-- queried from Prometheus, and `k6-<policy>-<scenario>.json`, one JSON object per line, in the
-- results directory; three scripts read them. In the transfer, a script makes the files, another
-- runs the client for each protocol and block size, and client and server share a wire format.
--
-- Parts and files:
-- - Base: native numbers, integers, lists and texts as code points, with the lemmas shared by
--   all.
-- - Py: the Python that the scripts rest on. Py/Exceptions has the exceptions that they can meet
--   and `Result`, Py/Values JSON values with `get`, `[]` and comparison, Py/Convert the
--   conversions `float`, `int`, `bool`, `strip` and padding, Py/Files the file system and `for
--   line in f`, Py/Loops loops that build lists or update a state. Py/Lines, Py/Decoded and
--   Py/Stripped relate reading by lines to splitting a text.
-- - Policies: POLICIES, SCENARIOS and POLICY_LABELS. Numpy: the percentiles that are asked of
--   numpy.
-- - Summary: project/analysis/summary_table.py (load_prom, fmt, build_rows, write_markdown,
--   write_latex, and `main` for its main block).
-- - Paper: project/analysis/plot_paper_figures.py. Paper/Extract is extract_k6_metrics,
--   Paper/Rates get_rps_from_k6, Paper/Load load_all_metrics and load_fault_data, Paper/Figures
--   the figures over the loaded table and the printed summary, Paper/Scaling fig_hpa_scaling,
--   Paper/Latency fig_hpa_latency_timeseries. Paper/Calls has the calls of matplotlib for
--   each figure, Paper/Drawn draws and saves them all and has the main block.
-- - Results: project/analysis/plot_results.py. Results/K6 is load_prom and load_k6,
--   Results/Figures the values of the figures of latency, throughput and errors. Results/Drawn
--   has the other figures, draws and saves them all, and has the main block.
-- - Drawing: the calls of matplotlib, as data, and the code that makes them (`Run`). Its
--   Discipline is an automaton for their order, its Saving the files they save.
-- - Transfer: the file transfer of tema1. Transfer/Wire is tema1/shared/src/lib.rs (to_bytes and
--   from_bytes of LenHeader, UdpPayload and UdpAck; its Transport and ADDRESSES are in
--   Transfer/Schedule), Transfer/Blocks the BlockIterator of
--   tema1/client/src/file/mod.rs, Transfer/Tcp handle_tcp of the client
--   (tema1/client/src/transport/tcp.rs) and handle_connection of the server
--   (tema1/server/src/transport/tcp.rs), Transfer/StopAndWait the two sides of the stop-and-wait
--   exchange over UDP (udp_stop_and_wait.rs of both), Transfer/QuicStopAndWait those over QUIC
--   datagrams (quic_stop_and_wait.rs of both), Transfer/Datagrams the transfers without
--   acknowledgements (udp.rs and quic.rs of both), Transfer/Schedule tema1/run_experiments.py
--   with the client's arguments (tema1/client/src/main.rs), Transfer/Data tema1/generate_data.py,
--   Transfer/Charts tema1/generate_charts.py.
-- - Worker: project/worker/src/main.rs. Its handlers (handle_get, handle_work, handle_cpu) with
--   active_inc and record_done, and the steps of the service; Worker/Gauge has the invariant of
--   its metrics.
-- - Checks: runs on concrete files.
-- The child modules of each part hold its proofs.
--
-- State and errors: a script keeps no state but its local variables, so a function here has the
-- parameters and results of its Python function, takes the file system as an argument and returns
-- a `Result` where the source can raise. The variables of a loop are a record (Tally, Counts,
-- Timeline, Recording). fig_hpa_scaling appends to three lists in one `try`, so its model keeps
-- the lists beside the exception on its way. A dict is the list of its entries. A figure is what
-- the plotting library is handed: labels, places and values, and then the calls that draw it. The
-- values are computed before the first mark of a figure is drawn, where the source draws each mark
-- when its values are known; the calls differ only in a run that an exception ends in between.
--
-- The client and the server of a transfer are functions on the bytes that pass between them. Over
-- TCP the stream arrives whole or is cut off. Over UDP the network decides what becomes of a
-- datagram and of its acknowledgement, and the sockets are lists of waiting datagrams. So it is
-- for QUIC datagrams, on a connection that stays up; a late acknowledgement comes after the wait
-- of its attempt and before the next datagram. Without acknowledgements, the datagrams that arrive
-- are a list in any order.
--
-- The worker's handlers run up to a wait, where others run; a state holds the handlers that wait,
-- and a step takes one request to its wait, its end or a panic, ends a wait or drops a handler.
--
-- Parameters: json.loads is a `Decoder`, floats are a type with the operations of `Floats`, numpy
-- is `Numpy`, datetime.fromisoformat a `Clock`, the network a `Network`, a run of the client a
-- `Client`, os.urandom an `Urandom`, pandas `Pandas`, Rust's f64 and Duration `Seconds`. What a
-- theorem assumes of them it names (IgnoresBlanks, ConvertsFirst, FixedIsPlain), and Checks/Sample
-- has instances that meet it.
--
-- Bounds: integers of the scripts are unbounded, as Python's are; counts of the transfer are
-- 64-bit integers that wrap around, and so are the worker's counters; its gauge is an unbounded
-- integer. Loops run over a list that they were given, but for two: the blocks of a file have its
-- length and one as fuel, and the server's loop over a stream the number of blocks and one, which
-- Transfer/Blocks and Transfer/Tcp show to be enough. The loop over five attempts recurses on
-- those that are left. Times of samples are whole microseconds and places of bars are multiples of
-- 1/10000 of the distance between groups; the source has floats for both. An integer 0 that is
-- only drawn is the float 0.0.
--
-- Of the plotting libraries' own errors, the model has that of an axis limit that is not finite,
-- that of a replica count without a float, that of lists of different lengths, and those of bars
-- without their columns or without numbers.
--
-- Not modelled: messages, and the styling of figures (colours, fonts, sizes, grids, spines); files
-- that cannot be opened or are not UTF-8; keys that occur twice in a JSON object, of which the
-- decoder keeps one; the order of NaN latencies of the same time. Of the transfer: errors of the
-- sockets, connecting and closing, and certificates. Besides: the worker's /health and /metrics
-- pages and its start, the shell scripts, the k6 scenarios, the cluster configuration and the
-- texts of the paper.
pub mod Base
pub mod Py
pub mod Policies
pub mod Numpy
pub mod Summary
pub mod Drawing
pub mod Paper
pub mod Results
pub mod Transfer
pub mod Checks
pub mod Worker
