-- ===== src/Tests.antt =====
-- Runs on small inputs.
mod Samples
mod Mapping
mod Headers
mod Ids
mod Records
mod Words
mod Sides
mod Category
mod Spill
mod Locate
mod Platform
mod Persistence
mod Rules
mod Reviews
mod Schema
mod SourcePaths
