-- ===== src/Tests.antt =====
-- Concrete programs, messages and files, and the theorems applied to them.
mod Data
mod Validator
mod Host
mod Access
mod Local
mod Agent
