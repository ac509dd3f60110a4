-- ===== src/Tests.antt =====
-- Runs of the model on concrete data, and its theorems applied to them.
mod Data
mod Checklists
mod Scores
mod Validators
mod Failures
mod Workflows
mod Stores
mod Lifecycle
mod Client
mod Loading
mod Requested
mod Asked
mod Requests
mod Evaluations
