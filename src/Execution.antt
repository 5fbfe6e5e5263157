-- ===== src/Execution.antt =====
-- The package execution: sizing, risk checks, the window counter, the executor and the resolver.
pub mod Sizer
pub mod Risk
pub mod Window
pub mod State
pub mod Executor
pub mod Resolver
