-- ===== src/Examples.antt =====
-- The theorems at concrete inputs.
mod Cycles
mod Calls
mod Callers
mod Accounts
mod Finalizer
mod Logins
mod Memory
mod CallRuns
mod Transcripts
mod Keys
mod Starts
mod Retries
mod Phones
mod Reports
mod Contacts
mod Recordings
mod Moves
mod Words
