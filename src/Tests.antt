-- ===== src/Tests.antt =====
-- Runs of the model on small inputs, and the theorems at such inputs.
mod Fixtures
mod Storages
mod Threads
mod Files
mod Requests
mod Reports
mod Routes
mod Configs
mod Databases
mod Agents
mod Servers
mod Analyzers
