-- ===== src/Driver/Attach.antt =====
-- dext/SMSC95xxDriver: Start of SMSC95xxDriver.cpp and setupDatapath of SMSC95xxDriver_datapath.cpp.
-- What DriverKit answers an attach is a parameter; each object is asked for once. An attach is a list of
-- steps, run in turn until one of them fails.
use smsc95xx_macos.Base.{ℕ, Bool, List, [], ◌∷◌, if◌then◌else◌}
pub mod Chip
pub mod Objects
pub mod Start
pub mod Kept
pub mod Untouched
pub mod Early
pub mod Cleanup
pub mod Provenance
pub mod Apart
pub mod Started
use smsc95xx_macos.Driver.Status.{KernReturn, is_success}
use smsc95xx_macos.Driver.Kit.{Kit}
use smsc95xx_macos.Driver.State.{Driver, Handles}
use smsc95xx_macos.Init.{Trace}
use smsc95xx_macos.Driver.Control.{ControlPipe}

-- What an attach asks DriverKit for.
pub data Resource : Type 0 where
  control_buffer dispatch_queue packet_pool : Resource
  tx_submission_queue tx_completion_queue rx_submission_queue rx_completion_queue : Resource
  bulk_in bulk_out rx_memory tx_memory rx_complete_action tx_complete_action : Resource
  doorbell_source doorbell_action backoff_timer backoff_action : Resource

-- A registry property.
pub data Property : Type 0 where
  id_rev phy_id : ℕ → Property
  mac_address : List ℕ → Property
  eeprom_loaded : Bool → Property

pub record Site : Type 0 where
  pub kit : Kit
  pub pipe : ControlPipe
  -- `Start` of the base class, and the cast of the provider
  pub super_start : KernReturn
  pub is_interface : Bool
  pub open_result : KernReturn
  -- the result, and whether the pointer that was stored is not null
  pub acquire : Resource → KernReturn × Bool
  -- `GetAddressRange` of a buffer, with the range's length
  pub address_range : Resource → KernReturn × ℕ
  -- what the transmit buffer holds at first
  pub contents : List ℕ
  -- `SetDataAvailableHandler` and `SetHandler` of a source, and `SetEnable (true)` of the timer
  pub set_handler : Resource → KernReturn
  pub enable_timer : KernReturn
  -- whether a property could be published
  pub publishes : Property → Bool
  pub register_ethernet : List ℕ → KernReturn

pub record Attach : Type 0 where
  pub driver : Driver
  -- the register accesses so far
  pub trace : Trace
  pub published : List Property
  -- the addresses that `registerEthernetInterface` was called with
  pub registered : List (List ℕ)

abbrev pub Step : Type 0
Step = Attach → KernReturn × Attach

-- `if (ret != kIOReturnSuccess) { goto fail; }` after a step.
abbrev pub and_then : KernReturn × Attach → Step → KernReturn × Attach
and_then (ret, a) next = if is_success ret then next a else (ret, a)

unfoldable pub in_turn : List Step → Step
in_turn [] a = (KernReturn.success, a)
in_turn (f ∷ fs) a = and_then (f a) (in_turn fs)

abbrev pub with_handles : (Handles → Handles) → Attach → Attach
with_handles f a = record a { driver = record a.driver { handles = f a.driver.handles } }
