-- ===== src/Tests.antt =====
-- Runs of the models of src and of the services under examples on concrete data.
mod Queues
mod Threads
mod Tables
mod Visits
mod Loop
mod Names
mod Streams
mod Services
mod Locks
mod Objects
mod Counts
mod Chains
mod Dispatch
mod Looks
