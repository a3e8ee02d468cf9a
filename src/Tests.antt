-- ===== src/Tests.antt =====
-- Concrete runs of the theorems about src/ and scripts/.
mod Data
mod Ranking
mod Runs
mod Board
mod Plane
mod Exclusion
mod Lease
mod Boundary
mod Claims
