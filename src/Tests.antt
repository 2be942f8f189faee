-- ===== src/Tests.antt =====
-- The theorems at concrete inputs.
mod Strings
mod Addresses
mod Options
pub mod Setup
mod Console
mod Loader
mod Loaders
mod GenericLoader
mod Merging
pub mod SmallFdt
pub mod OneProperty
pub mod Trees
mod TreeLoader
mod MemoryTags
mod CommandLines
mod ChosenTags
mod RaumfeldBoards
pub mod RaumfeldMatch
pub mod RaumfeldLoader
mod RaumfeldPassed
pub mod Connector
mod RaumfeldSees
