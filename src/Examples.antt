-- ===== src/Examples.antt =====
-- Tests and concrete runs of the models, by the part of the kernel that they run.
mod Memory
mod Messages
mod Ports
mod Heap
mod Console
mod Boot
mod Library
mod Devices
mod Tables
