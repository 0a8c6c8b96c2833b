-- ===== src/Tests.antt =====
-- Runs of the model on concrete inputs, and the theorems applied to them.
mod HandleTests
mod ArchiveTests
mod LzxTests
mod LocalTests
mod StepTests
mod DriverTests
mod ReadTests
mod TreeTests
mod MountTests
mod LaTests
