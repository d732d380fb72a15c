-- ===== src/Tests.antt =====
-- Examples: the theorems at concrete inputs, and runs of the definitions.
mod Tools
mod Fixtures
mod Budget
mod History
mod Recovery
mod Startup
mod System
mod Starting
mod Arrival
mod Rendering
mod Lifecycle
mod Readiness
mod Safety
mod Store
mod Wakeup
mod WebTools
mod Http
mod Drivers
