-- ===== src/SshAgent.antt =====
-- The package `sshagent`: the certificate filter, and the agents that the server can serve.
pub mod Eku
pub mod Agent
pub mod Wrapped
pub mod KeyRing
pub mod HyperV
pub mod Signers
pub mod CapiAgent
