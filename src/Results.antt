-- ===== src/Results.antt =====
-- project/analysis/plot_results.py: the comparison figures of all runs, from the Prometheus and
-- the k6 results.
pub mod K6
pub mod Drawn
pub mod Figures
