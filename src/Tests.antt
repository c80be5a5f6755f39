-- ===== src/Tests.antt =====
-- Concrete runs of the models, and the theorems at those inputs.
mod Commit
mod Elections
mod Matching
mod Primitives
mod Recovery
mod Retries
mod Steps
mod Tenure
mod Testing
mod Stores
mod Lifecycle
mod Machines
