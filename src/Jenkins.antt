-- ===== src/Jenkins.antt =====
-- scripts/run_dual_jenkins.py: both lanes for one build, and their publication.
pub mod Campaign
pub mod Plots
pub mod CatalogPlots
pub mod Publication
pub mod Junit
pub mod Own
pub mod Summary
