-- ===== src/Tests.antt =====
-- The theorems at concrete inputs.
mod Disk
mod Controller
mod Interrupts
mod Program
mod Entropy
mod Queues
mod Startup
mod Discovery
mod Board
mod Bars
mod Console
mod Found
mod Imsic
mod Transfer
mod SelfTest
