-- ===== src/Shell.antt =====
-- The shell of unix-shell-from-scratch.
mod Examples
pub mod Parser
pub mod Commands
pub mod Files
pub mod Os
pub mod Internal
pub mod External
pub mod Loop
pub mod Pipes
pub mod Main
