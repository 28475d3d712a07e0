-- ===== src/Tests.antt =====
-- The theorems on concrete inputs of the program: the values of the modules' functions, and one
-- application of each theorem.
mod Fixtures
mod Amounts
mod Guard
mod Deliveries
mod Settlement
mod Background
mod Boot
mod Keys
mod Pages
mod Requests
mod Started
mod Stream
mod Limits
mod Probes
mod Pace
mod Lives
mod Stamps
