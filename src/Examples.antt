-- ===== src/Examples.antt =====
-- Each theorem with hypotheses at one concrete input, and runs of the code on small inputs.
mod Plans
mod Policies
mod Maps
mod Rounds
mod Daemon
mod Interfaces
mod Whitelists
mod Relays
mod Hosts
mod Tables
mod Files
