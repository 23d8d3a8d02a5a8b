-- ===== src/Tests.antt =====
-- The theorems on concrete inputs, by the part of backend/ontology_platform that they are about.
mod Traffic
mod Meaning
mod Access
mod Time
mod Verdict
mod Rules
mod Keys
mod Derived
mod Rule
mod Quota
mod Login
mod Operate
