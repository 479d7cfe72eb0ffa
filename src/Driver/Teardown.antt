-- ===== src/Driver/Teardown.antt =====
-- dext/SMSC95xxDriver/SMSC95xxDriver.cpp: finishStop, the second phase of teardown. Cancellation
-- handlers run at any time once their Cancel was accepted, between the Cancels of finishStop or after
-- it has returned: the interleavings are the runs of a step relation. The retains are left out.
use smsc95xx_macos.Base.{ℕ, suc, ◌+◌, ◌-◌, ◌^◌, ◌≡◌, Bool, if◌then◌else◌, ◌==◌, u32}
pub mod Countdown
use smsc95xx_macos.Driver.State.{Handles}

pub record Teardown : Type 0 where
  -- `stopCancelsPending`
  pub pending : ℕ
  -- sources whose Cancel is still to be issued, and accepted Cancels whose handler has not run
  pub to_cancel : ℕ
  pub waiting : ℕ
  -- how often the resources were released, and the base class stopped
  pub releases : ℕ
  pub stops : ℕ

abbrev one_if : Bool → ℕ
one_if b = if b then 1 else 0

-- `cancelCount`.
unfoldable pub cancel_count : Handles → ℕ
cancel_count h =
    one_if h.rx_backoff_timer + one_if h.tx_data_queue + one_if h.rx_action + one_if h.tx_action

abbrev pub release_and_stop : Teardown → Teardown
release_and_stop s = record s { releases = s.releases + 1; stops = s.stops + 1 }

-- The block `finalize`: the counter is an unsigned 32-bit integer.
unfoldable pub finalize : Teardown → Teardown
finalize s =
    let s1 = record s { pending = u32 (s.pending + (2 ^ 32 - 1)) } in
    if s.pending == 1 then release_and_stop s1 else s1

-- Up to the first Cancel.
unfoldable pub begin_stop : Handles → Teardown
begin_stop h =
    let n = cancel_count h in
    let s : Teardown = record {
      pending = n;
      to_cancel = n;
      waiting = 0;
      releases = 0;
      stops = 0;
    } in
    if n == 0 then release_and_stop s else s

-- A Cancel is accepted; it is refused, and completed at once; or the handler of an accepted one runs.
pub data Step : Teardown → Teardown → Type 0 where
  cancel_accepted :
      (s : Teardown) (n : ℕ)
      → s.to_cancel ≡ suc n
      → Step s (record s { to_cancel = n; waiting = s.waiting + 1 })
  cancel_refused :
      (s : Teardown) (n : ℕ) → s.to_cancel ≡ suc n → Step s (finalize (record s { to_cancel = n }))
  handler_ran :
      (s : Teardown) (n : ℕ) → s.waiting ≡ suc n → Step s (finalize (record s { waiting = n }))

-- The states that a teardown can reach.
pub data Reachable : Handles → Teardown → Type 0 where
  begun : (h : Handles) → Reachable h (begin_stop h)
  then_step : (h : Handles) (s t : Teardown) → Reachable h s → Step s t → Reachable h t
