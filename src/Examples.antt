-- ===== src/Examples.antt =====
-- Concrete inputs at which the theorems apply, taken from the documentation examples of
-- der-verified/src and close to them.
mod Framing
mod Collections
mod Content
mod Structures
mod Strings
mod Certificates
