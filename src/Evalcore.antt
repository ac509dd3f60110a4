-- ===== src/Evalcore.antt =====
-- internal/evalcore: the checklist's data, its validation, the assembly of the final questions and
-- the score. One child for each group of functions, with the proofs in the children below it.
pub mod Types
pub mod Dimensions
pub mod Questions
pub mod Weights
pub mod FinalQuestions
pub mod Judgments
pub mod Ids
pub mod Active
pub mod Score
pub mod Aggregate
