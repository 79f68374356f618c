-- ===== src/Tests.antt =====
-- Tests of the definitions, and the theorems at concrete inputs.
mod Samples
mod QueueTests
mod StoreTests
mod RuleTests
mod EngineTests
mod ParamsTests
mod CompileTests
mod SinkTests
mod HttpTests
mod ProcessTests
mod LifeTests
