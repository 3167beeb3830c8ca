-- ===== src/Examples.antt =====
-- Concrete inputs: a small world, libraries that keep their laws, and the theorems applied to them.
mod Codec
mod Runs
mod Grants
mod Sessions
mod Requests
mod Ceilings
mod Logs
mod Inputs
mod Direct
mod Workers
