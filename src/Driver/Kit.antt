-- ===== src/Driver/Kit.antt =====
-- What the datapath asks of DriverKit and NetworkingDriverKit. Each call that acts is an event, and
-- the answers are functions of the events so far, latest first: any deterministic environment is
-- one such record, and what the datapath did is read off the history.
use smsc95xx_macos.Base.{ℕ, zero, suc, ◌+◌, ◌≡◌, ap, length, Bool, Option, List, [], ◌∷◌, arith}
use smsc95xx_macos.Driver.Status.{KernReturn}

-- A packet is named by a number.
pub data Event : Type 0 where
  -- `txSubmit->DequeuePackets`, with the count and the packet that it gave
  tx_dequeue : ℕ → Option ℕ → Event
  -- `txComplete->enqueuePackets`
  tx_enqueue : ℕ → KernReturn → Event
  -- `pipeOut->AsyncIO`, with the bytes of the transfer
  async_out : List ℕ → KernReturn → Event
  -- `pipeIn->AsyncIO`
  async_in : KernReturn → Event
  -- `rxSubmit->DequeuePackets`
  rx_dequeue : ℕ → Option ℕ → Event
  -- `rxComplete->enqueuePackets`
  rx_enqueue : ℕ → KernReturn → Event
  -- `pool->allocatePacket`
  pool_allocate : KernReturn → Option ℕ → Event
  -- `pool->deallocatePacket`
  pool_deallocate : ℕ → KernReturn → Event
  -- the `memcpy` into a packet: the packet, its data offset, and the bytes
  packet_write : ℕ → ℕ → List ℕ → Event
  -- `packet->setDataLength`
  set_length : ℕ → ℕ → KernReturn → Event
  -- `rxBackoffTimer->WakeAtTime`, with its deadline
  wake_at : ℕ → KernReturn → Event
  -- `ClearStall` on the bulk IN and on the bulk OUT pipe
  clear_stall_in clear_stall_out : Event
  -- `Abort` on the bulk IN and on the bulk OUT pipe
  abort_in abort_out : KernReturn → Event
  -- `setEnable` on packet queue number `i`, and on the interface by the base class
  queue_enable : ℕ → Bool → KernReturn → Event
  super_enable : Bool → KernReturn → Event
  -- `reportLinkStatus`: true for active
  report_link : Bool → KernReturn → Event
  -- `interface->Open`, `interface->Close`, and the base class's `Stop`
  open_interface : KernReturn → Event
  close_interface super_stop : Event

abbrev pub History : Type 0
History = List Event

pub record Kit : Type 0 where
  pub dequeue_tx : History → ℕ × Option ℕ
  pub enqueue_tx : History → ℕ → KernReturn
  pub write_out : History → List ℕ → KernReturn
  pub read_in : History → KernReturn
  pub dequeue_rx : History → ℕ × Option ℕ
  pub enqueue_rx : History → ℕ → KernReturn
  pub allocate : History → KernReturn × Option ℕ
  pub deallocate : History → ℕ → KernReturn
  pub set_data_length : History → ℕ → ℕ → KernReturn
  -- `getDataLength`, `getDataOff` and `getDataVirtualAddress` of a packet
  pub data_length : History → ℕ → ℕ
  pub data_off : History → ℕ → ℕ
  pub data_address : History → ℕ → ℕ
  -- the byte at an address
  pub memory : History → ℕ → ℕ
  pub wake : History → ℕ → KernReturn
  pub clock : History → ℕ
  pub abort_pipe_in : History → KernReturn
  pub abort_pipe_out : History → KernReturn
  pub enable_queue : History → ℕ → Bool → KernReturn
  pub enable_super : History → Bool → KernReturn
  pub link_status : History → Bool → KernReturn

-- The `n` bytes from an address on.
unfoldable pub read_run : (ℕ → ℕ) → ℕ → ℕ → List ℕ
read_run m at zero = []
read_run m at (suc n) = m at ∷ read_run m (at + 1) n

pub length-read_run : (m : ℕ → ℕ) (at n : ℕ) → length (read_run m at n) ≡ n
unfolding read_run
length-read_run m at zero = omega arith
length-read_run m at (suc n) = ap suc (length-read_run m (at + 1) n)
