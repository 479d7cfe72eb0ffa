-- ===== src/Driver/Queries.antt =====
-- dext/SMSC95xxDriver/SMSC95xxDriver.cpp: what the network stack asks of the driver, and what it
-- refuses. An output pointer is `true` when it is not null; the outputs are in the result. The base
-- class's answers, which are only traced, are left out.
use smsc95xx_macos.Base.{ℕ, Bool, not, Option, none, some, List, [], ◌∷◌, if◌then◌else◌, ◌==◌}
use smsc95xx_macos.Regs.{tx_header_len}
use smsc95xx_macos.Driver.Status.{KernReturn}
use smsc95xx_macos.Driver.State.{Driver}

-- A media word. `SMSC95XX_MEDIA_WORD` is the third.
pub data MediaWord : Type 0 where
  ethernet_none ethernet_auto half_duplex_10 : MediaWord

-- The two deprecated entry points that answer success and do nothing.
pub set_interface_enable_impl : Bool → KernReturn
set_interface_enable_impl enable = KernReturn.success

pub set_promiscuous_mode_enable_impl : Bool → KernReturn
set_promiscuous_mode_enable_impl enable = KernReturn.success

pub get_max_transfer_unit : ℕ
get_max_transfer_unit = 1500

-- The result, and what the pointer's target holds after it.
unfoldable pub get_hardware_address : Bool → Driver → KernReturn × Option (List ℕ)
get_hardware_address present s =
    if not present
    then (KernReturn.bad_argument, none)
    else if not s.life.mac_valid
    then (KernReturn.not_ready, none)
    else (KernReturn.success, some s.life.mac_address)

pub set_mtu : ℕ → KernReturn
set_mtu mtu = if mtu == 1500 then KernReturn.success else KernReturn.unsupported

pub get_max_transfer_unit_impl : Bool → KernReturn × Option ℕ
get_max_transfer_unit_impl present =
    if not present then (KernReturn.bad_argument, none) else (KernReturn.success, some 1500)

pub get_hardware_assists_impl : Bool → KernReturn × Option ℕ
get_hardware_assists_impl present =
    if not present then (KernReturn.bad_argument, none) else (KernReturn.success, some 0)

pub get_hardware_assists : ℕ
get_hardware_assists = 0

pub set_hardware_assists_impl : ℕ → KernReturn
set_hardware_assists_impl assists = KernReturn.unsupported

pub set_hardware_assists : ℕ → ℕ → KernReturn
set_hardware_assists assists mask = KernReturn.unsupported

pub set_multicast_addresses : List (List ℕ) → KernReturn
set_multicast_addresses addresses = KernReturn.unsupported

pub set_all_multicast_mode_enable : Bool → KernReturn
set_all_multicast_mode_enable enable = KernReturn.unsupported

pub select_media_type : MediaWord → KernReturn
select_media_type media = KernReturn.unsupported

pub set_wake_on_magic_packet_enable : Bool → KernReturn
set_wake_on_magic_packet_enable enable = KernReturn.unsupported

-- The media array is optional, the count is not.
pub get_supported_media_array : Bool → Bool → KernReturn × Option (List MediaWord) × Option ℕ
get_supported_media_array array count =
    if not count then (KernReturn.bad_argument, none, none) else (
      KernReturn.success,
      (if array then some (ethernet_none ∷ ethernet_auto ∷ half_duplex_10 ∷ []) else none),
      some 3,
    )

pub get_tso_options : Bool → KernReturn × Option (ℕ × ℕ)
get_tso_options present =
    if not present then (KernReturn.bad_argument, none) else (KernReturn.success, some (0, 0))

pub get_tx_data_offset : ℕ
get_tx_data_offset = tx_header_len
