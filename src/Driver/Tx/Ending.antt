-- ===== src/Driver/Tx/Ending.antt =====
-- Fuel that suffices for the transmit callbacks; and the callbacks once the handles are gone.
use mathlib.Core.Option
use smsc95xx_macos.Base.{
  ℕ, ◌≤◌, ◌<◌, ◌≡◌, refl, ap, sym, subst, ◌∙◌, true, false, not, ◌&&◌, Option, none, some, if-cases,
  incr, arith,
}
use smsc95xx_macos.Driver.Status.{KernReturn}
use smsc95xx_macos.Driver.Kit.{Kit, History}
use smsc95xx_macos.Driver.State.{Driver, Handles}
use smsc95xx_macos.Driver.Tx.{
  tx_account_status, tx_return_packet, tx_drain_end, tx_drain_submission, tx_data_available,
  tx_completed,
}
use smsc95xx_macos.Driver.Tx.Loop.{OnSome, OnSome-map, OnSome-weaken, tx_drain_loop_total}
use smsc95xx_macos.Driver.Tx.Drain.{Backlog, return-left, round-left}

abbrev Total : {A : Type 0} → Option A → Type 0
Total o = (a : _) × (o ≡ some a)

map-Total : {A B : Type 0} (f : A → B) (o : Option A) → Total o → Total (Option.map f o)
map-Total f o (a, e) = (f a, ap (Option.map f) e)

module _ (kit : Kit) where
  pub drain-Total :
      (left : History → ℕ) (fuel : ℕ) (s : Driver)
      → Backlog kit left
      → left s.history < fuel
      → Total (tx_drain_submission kit fuel s)
  unfolding tx_drain_submission
  drain-Total left fuel s b enough =
      let s1 = record s { tx = record s.tx { tx_drains = incr s.tx.tx_drains } } in
      if-cases Total (not (s.handles.tx_submit && s.handles.tx_complete)) _ _ (λ _. (_, refl))
        (λ _.
          if-cases Total (not s.tx.tx_datapath_ready) _ _ (λ _. (_, refl))
            (λ _. map-Total tx_drain_end _ (
              tx_drain_loop_total kit (λ t. left t.history) (λ t idle g. round-left kit left t b g)
                fuel 0 s1 enough)))

  -- On a finite backlog, and with more fuel than packets are left, a doorbell ends, whatever the
  -- environment answers.
  pub tx_data_available-total :
      (left : History → ℕ) (fuel : ℕ) (s : Driver)
      → Backlog kit left
      → left s.history < fuel
      → (t : Driver) × (tx_data_available kit fuel s ≡ some t)
  unfolding tx_data_available
  tx_data_available-total left fuel s b enough =
      if-cases Total (not (s.handles.tx_submit && s.handles.tx_complete)) _ _ (λ _. (_, refl))
        (λ _. map-Total _ _ (drain-Total left fuel _ b enough))

  pub account-left :
      (left : History → ℕ) (status : KernReturn) (count : ℕ) (s : Driver)
      → Backlog kit left
      → left (tx_account_status status count s).history ≤ left s.history
  unfolding tx_account_status
  account-left left status count s b = ground (arith, b.clear_stall s.history)

  pub settle-left :
      (left : History → ℕ) (o : Option ℕ) (s : Driver)
      → Backlog kit left
      → left (tx_return_packet kit o s).history ≤ left s.history
  settle-left left none s b = unfold tx_return_packet in omega arith
  settle-left left (some p) s b = return-left kit left p s b

  -- On a finite backlog, and with more fuel than packets are left, a bulk OUT completion of any status
  -- ends, whatever the environment answers.
  pub tx_completed-total :
      (left : History → ℕ) (fuel : ℕ) (status : KernReturn) (count : ℕ) (s : Driver)
      → Backlog kit left
      → left s.history < fuel
      → (t : Driver) × (tx_completed kit fuel status count s ≡ some t)
  unfolding tx_completed
  tx_completed-total left fuel status count s b enough =
      let s1 = record s {
        tx = record s.tx {
          tx_packet = none;
          tx_in_flight = false;
          tx_completions = incr s.tx.tx_completions;
          in_tx_complete = true;
        };
      } in
      let s2 = tx_account_status status count s1 in
      map-Total _ _ (
        drain-Total left fuel (tx_return_packet kit s.tx.tx_packet s2) b (
          omega (arith, settle-left left s.tx.tx_packet s2 b, account-left left status count s1 b)))

  drain-shut :
      (fuel : ℕ) (s : Driver)
      → s.handles.tx_submit ≡ false
      → OnSome (λ (t : Driver). t.history ≡ s.history) (tx_drain_submission kit fuel s)
  unfolding tx_drain_submission
  drain-shut fuel s e = ground arith

  -- Without a submission queue, a doorbell makes no call.
  pub tx_data_available-shut :
      (fuel : ℕ) (s : Driver)
      → s.handles.tx_submit ≡ false
      → OnSome (λ (t : Driver). t.history ≡ s.history) (tx_data_available kit fuel s)
  unfolding tx_data_available
  tx_data_available-shut fuel s e =
      if-cases (OnSome (λ (t : Driver). t.history ≡ s.history))
        (not (s.handles.tx_submit && s.handles.tx_complete)) _ _ (λ _. refl)
        (λ there. absurd (ground (arith, there, e)))

  account-shut :
      (status : KernReturn) (count : ℕ) (s : Driver)
      → s.handles.pipe_out ≡ false
      → ((tx_account_status status count s).history ≡ s.history)
        × ((tx_account_status status count s).handles ≡ s.handles)
  unfolding tx_account_status
  account-shut status count s e = ground arith

  -- Nor does a completion, if there is no packet and no pipe either.
  pub tx_completed-shut :
      (fuel : ℕ) (status : KernReturn) (count : ℕ) (s : Driver)
      → s.handles.tx_submit ≡ false
      → s.handles.pipe_out ≡ false
      → s.tx.tx_packet ≡ none
      → OnSome (λ (t : Driver). t.history ≡ s.history) (tx_completed kit fuel status count s)
  unfolding tx_completed
  tx_completed-shut fuel status count s a b c =
      let s1 = record s {
        tx = record s.tx {
          tx_packet = none;
          tx_in_flight = false;
          tx_completions = incr s.tx.tx_completions;
          in_tx_complete = true;
        };
      } in
      let (h, k) = account-shut status count s1 b in
      let s2 = tx_account_status status count s1 in
      let same : tx_return_packet kit s.tx.tx_packet s2 ≡ s2 =
        ap (λ o. tx_return_packet kit o s2) c ∙ unfold tx_return_packet in refl in
      let P = λ (t : Driver). t.history ≡ s.history in
      OnSome-map P P _ (λ t e. e) _
        (subst (λ (t : Driver). OnSome P (tx_drain_submission kit fuel t)) (sym same)
          (OnSome-weaken (λ (t : Driver). t.history ≡ s2.history) P (λ t e. e ∙ h) _
            (drain-shut fuel s2 (ap (λ (x : Handles). x.tx_submit) k ∙ a))))
