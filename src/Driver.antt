-- ===== src/Driver.antt =====
-- dext/SMSC95xxDriver: the state of the driver, what it asks of DriverKit, and its operations.
pub mod Status
pub mod Kit
pub mod State
pub mod Tx
pub mod Rx
pub mod Interface
pub mod Teardown
pub mod Sides
pub mod Run
pub mod Life
pub mod Release
pub mod Control
pub mod Queries
pub mod Attach
pub mod Service
