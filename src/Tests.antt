-- ===== src/Tests.antt =====
-- Runs of the model on concrete inputs, over the integers of Math.Exact in place of `float`.
mod Shapes
mod Trees
mod Division
mod Worlds
mod Memory
mod Pointers
mod Samples
