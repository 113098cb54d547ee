-- ===== src/Tests.antt =====
-- The theorems' conditions met by concrete inputs, module by module.
mod Pages
mod Arenas
mod Accounts
mod Problems
mod Publishing
mod Contests
