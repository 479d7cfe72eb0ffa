-- ===== src/Driver/Tx/Wire.antt =====
-- What goes out on the wire: the bytes of the bulk OUT transfers.
use smsc95xx_macos.Base.{
  ℕ, ◌≤◌, ◌≡◌, not, ◌&&◌, Option, none, List, [], ◌∷◌, ◌++◌, ◌==◌, if-cases, if-false,
  if◌then◌else◌, ap, subst, some, ◌+◌, u64, arith,
}
use smsc95xx_macos.Proto.Tx.Header.{header}
use smsc95xx_macos.Driver.Status.{KernReturn, is_success}
use smsc95xx_macos.Driver.Kit.{Kit, Event, History, tx_dequeue, async_out, read_run}
use smsc95xx_macos.Driver.State.{Driver}
use smsc95xx_macos.Driver.Tx.{
  tx_start_transfer, tx_return_packet, tx_submit_packet, tx_drain_round, tx_drain_end,
  tx_drain_submission, tx_data_available,
}
use smsc95xx_macos.Driver.Tx.Cases.{submit_cases, round_cases, took}
use smsc95xx_macos.Driver.Tx.Loop.{OnSome, OnSome-map, after, tx_drain_loop_inv}

-- The packet that the latest call gave, if it was a dequeue that gave one.
abbrev pub just_taken : History → Option ℕ
just_taken (tx_dequeue n o ∷ h) = if n == 0 then none else o
just_taken _ = none

-- Where a packet says that its frame is.
abbrev pub frame_address : Kit → History → ℕ → ℕ
frame_address kit h p = u64 (kit.data_address h p + kit.data_off h p)

module _ (kit : Kit) where
  -- A transfer that was asked for after the calls `h` carried the header of `n` and the `n` bytes of
  -- the packet just taken, read where the packet says its frame is; offset and length fit its buffer.
  abbrev CarriesFrame : List ℕ → History → Type 0
  CarriesFrame bytes h =
      (p : ℕ) × (n : ℕ) × (just_taken h ≡ some p)
      × (n ≡ kit.data_length h p)
      × (42 ≤ n)
      × (n ≤ 1514)
      × (0x100000 ≤ frame_address kit h p)
      × (u64 (kit.data_off h p + n) ≤ 2048)
      × (bytes ≡ header n ++ read_run (kit.memory h) (frame_address kit h p) n)

  abbrev EventOk : Event → History → Type 0
  EventOk (async_out bytes r) h = CarriesFrame bytes h
  EventOk _ h = Unit

  abbrev pub AllFramed : History → Type 0
  AllFramed [] = Unit
  AllFramed (e ∷ h) = EventOk e h × AllFramed h

  submit-framed :
      (p : ℕ) (s : Driver)
      → just_taken s.history ≡ some p
      → AllFramed s.history
      → AllFramed (tx_submit_packet kit p s).1.history
  submit-framed p s j a =
      submit_cases kit (λ r. AllFramed r.1.history) p s (λ ret b e. a)
        (λ bytes at n e k.
          let carries : CarriesFrame (header n ++ read_run (kit.memory s.history) at n) s.history =
            (
              p,
              n,
              j,
              k.size,
              k.low,
              k.high,
              subst (λ (x : ℕ). 0x100000 ≤ x) k.place k.mapped,
              k.in_buffer,
              ap (λ (x : ℕ). header n ++ read_run (kit.memory s.history) x n) k.place,
            ) in
          unfold tx_start_transfer in
          if-cases (λ (r : KernReturn × Driver). AllFramed r.1.history)
            (is_success (kit.write_out s.history _)) _ _ (λ _. (carries, a)) (λ _. (carries, a)))

  return-framed :
      (o : Option ℕ) (s : Driver)
      → AllFramed s.history
      → AllFramed (tx_return_packet kit o s).history
  unfolding tx_return_packet
  return-framed none s a = a
  return-framed (some p) s a = ground arith

  round-framed :
      (s : Driver) → AllFramed s.history → AllFramed (after (tx_drain_round kit s)).history
  round-framed s a =
      round_cases kit (λ r. AllFramed (after r).history) s (λ n o e. (tt, a)) (λ n e. (tt, a))
        (λ n p e q0 k. submit-framed p (took n p s) (if-false (n == 0) none (some p) e) (tt, a))
        (λ n p e q0 k.
          return-framed (some p) (tx_submit_packet kit p (took n p s)).1
            (submit-framed p (took n p s) (if-false (n == 0) none (some p) e) (tt, a)))

  end-framed : (r : Driver × ℕ) → AllFramed r.0.history → AllFramed (tx_drain_end r).history
  end-framed (s, n) a =
      if-cases (λ (t : Driver). AllFramed t.history) (s.tx.tx_in_flight && n == 0) _ _ (λ _. a)
        (λ _. a)

  abbrev pub WellFramed : Driver → Type 0
  WellFramed s = AllFramed s.history

  drain-framed :
      (fuel : ℕ) (s : Driver)
      → AllFramed s.history
      → OnSome WellFramed (tx_drain_submission kit fuel s)
  unfolding tx_drain_submission
  drain-framed fuel s a =
      if-cases (OnSome WellFramed) (not (s.handles.tx_submit && s.handles.tx_complete)) _ _ (λ _. a)
        (λ _.
          if-cases (OnSome WellFramed) (not s.tx.tx_datapath_ready) _ _ (λ _. a)
            (λ _.
              OnSome-map (λ r. AllFramed r.0.history) WellFramed tx_drain_end end-framed _
                (tx_drain_loop_inv kit WellFramed (λ t idle b. round-framed t b) fuel 0 _ a)))

  -- If every transfer so far carried the header of the length of the packet that had just been taken,
  -- of 42 to 1514 bytes, and the packet's frame, read where the packet says that it is and within its
  -- buffer, then so does each transfer that the doorbell starts.
  pub tx_data_available-framed :
      (fuel : ℕ) (s : Driver)
      → AllFramed s.history
      → OnSome WellFramed (tx_data_available kit fuel s)
  unfolding tx_data_available
  tx_data_available-framed fuel s a =
      if-cases (OnSome WellFramed) (not (s.handles.tx_submit && s.handles.tx_complete)) _ _ (λ _. a)
        (λ _. OnSome-map WellFramed WellFramed _ (λ t b. b) _ (drain-framed fuel _ a))
