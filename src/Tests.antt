-- ===== src/Tests.antt =====
-- Runs of the definitions on small inputs, and the theorems at inputs that meet their hypotheses.
mod Containers
mod Network
mod Tree
mod Services
mod Sockets
mod Whole
mod Processes
mod Lifecycles
mod Memory
