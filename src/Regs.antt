-- ===== src/Regs.antt =====
-- common/smsc95xx_regs.h, one child module for each group of constants. A constant has the header's
-- name without the prefix SMSC95XX_, in lower case.
mod Offsets
mod Fields
mod Framing
mod Bringup
pub use Offsets.*
pub use Fields.*
pub use Framing.*
pub use Bringup.*
