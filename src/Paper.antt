-- ===== src/Paper.antt =====
-- project/analysis/plot_paper_figures.py: the figures of the paper, from the k6 results.
pub mod Extract
pub mod Rates
pub mod Agreement
pub mod Load
pub mod Figures
pub mod Scaling
pub mod Latency
pub mod Calls
pub mod Drawn
