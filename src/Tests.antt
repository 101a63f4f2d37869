-- ===== src/Tests.antt =====
-- Runs of the model on small inputs, and instances of the theorems.
mod Sample
mod SafetyTests
mod OrderTests
mod SessionTests
mod ServerTests
mod ChatTests
mod CommandTests
mod TextTests
mod ProcessTests
mod ProgramTests
mod ConfigTests
mod TokenTests
mod LoopTests
