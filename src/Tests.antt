-- ===== src/Tests.antt =====
-- The theorems at concrete inputs, and runs of the definitions.
mod Blocks
mod Text
mod Threads
mod Files
mod Keys
mod Screen
mod Devices
mod Paging
mod Bus
mod Lines
mod Reading
mod Session
mod Turns
mod Creation
mod Boot
