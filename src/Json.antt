-- ===== src/Json.antt =====
-- The JSON scanner: src/runtime/cpu/json_scanner.cpp and json_scanner.hpp.
pub mod Monad
pub mod Scanner
pub mod Skip
pub mod Ends
pub mod Strings
pub mod Numbers
pub mod Values
pub mod Decimal
pub mod RoundTrip
pub mod Unicode
