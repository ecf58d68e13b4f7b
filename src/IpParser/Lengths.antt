-- ===== src/IpParser/Lengths.antt =====
-- ext/asyncengine/ip_parser.c: how long a text may be that the machine accepts.
pub mod Weight
pub mod Checks1
pub mod Checks2
pub mod Checks3
pub mod Checks4
pub mod Checked
pub mod Bound
pub mod Runs
pub mod Brackets
pub mod Buffers
pub mod Swapped
