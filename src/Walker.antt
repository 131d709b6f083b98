-- ===== src/Walker.antt =====
-- The stream walkers of iotilesensorgraph/iotile/sg/walker.py, a module for each class, and one for
-- what a client that holds any of them sees.
pub mod Buffered
pub mod Virtual
pub mod Counter
pub mod Any
