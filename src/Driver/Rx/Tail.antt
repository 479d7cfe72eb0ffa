-- ===== src/Driver/Rx/Tail.antt =====
-- What a receive completion keeps, from what its parts keep: the walk over the records, arming the next
-- read, backing off, clearing a stall, and the counters that no book reads.
use smsc95xx_macos.Base.{
  ℕ, ◌+◌, ◌≡◌, refl, Bool, true, false, not, ◌&&◌, List, ◌==◌, leb, if-cases, incr, u64,
}
use smsc95xx_macos.Driver.Status.{KernReturn, is_success, is_aborted, is_stalled}
use smsc95xx_macos.Driver.Kit.{Kit, clear_stall_in}
use smsc95xx_macos.Driver.State.{Driver, Receive, record_event}
use smsc95xx_macos.Driver.Tx.Loop.{OnSome, OnSome-map}
use smsc95xx_macos.Driver.Rx.{
  arm_rx_read, rearm_after_data, rx_back_off, rearm_after_nothing, rearm_rx_read,
  rx_backoff_expired, rx_walk, rx_walk_end, rx_failed, rx_dispatch, rx_completed, rx_idle_run_limit,
}
use smsc95xx_macos.Driver.Rx.Books.{drop_sum}

-- The fields that the books read are the same.
abbrev pub Alike : Receive → Receive → Type 0
Alike r x =
    (x.rx_armed ≡ r.rx_armed)
    × (x.rx_records ≡ r.rx_records)
    × (x.rx_frames ≡ r.rx_frames)
    × (x.rx_dropped ≡ r.rx_dropped)
    × (drop_sum x ≡ drop_sum r)

-- What the steps around the walk keep.
pub record Steady (kit : Kit) (I : Driver → Type 0) : Type 0 where
  pub counters : (s : Driver) (x : Receive) → Alike s.rx x → I s → I (record s { rx = x })
  pub arm : (s : Driver) → I s → I (arm_rx_read kit s).1
  pub back_off : (s : Driver) → I s → I (rx_back_off kit s)
  pub stall : (s : Driver) → I s → I (record_event clear_stall_in s)

module _ (kit : Kit) (I : Driver → Type 0) (k : Steady kit I) where
  rearm_rx_read_inv : (got : Bool) (s : Driver) → I s → I (rearm_rx_read kit got s)
  unfolding rearm_rx_read rearm_after_data rearm_after_nothing
  rearm_rx_read_inv true s i = k.arm _ (
      k.counters s (record s.rx { rx_idle_run = 0; rx_backoff_active = false })
        (refl, refl, refl, refl, refl) i)
  rearm_rx_read_inv false s i =
      let x = record s.rx { rx_idle_run = incr s.rx.rx_idle_run } in
      let i1 : I (record s { rx = x }) = k.counters s x (refl, refl, refl, refl, refl) i in
      if-cases I (leb x.rx_idle_run rx_idle_run_limit) _ _ (λ _. k.arm _ i1) (λ _. k.back_off _ i1)

  pub rx_backoff_expired_inv : (s : Driver) → I s → I (rx_backoff_expired kit s)
  unfolding rx_backoff_expired
  rx_backoff_expired_inv s i =
      let x = record s.rx { rx_backoff_wakes = incr s.rx.rx_backoff_wakes } in
      let i1 : I (record s { rx = x }) = k.counters s x (refl, refl, refl, refl, refl) i in
      if-cases I (not x.rx_running) _ _ (λ _. i1) (λ _. k.arm _ i1)

  walk_end_inv : (r : Driver × ℕ) → I r.0 → I (rx_walk_end kit r)
  unfolding rx_walk_end
  walk_end_inv (s, records) i = rearm_rx_read_inv true _ (
      if-cases I (records == 0)
        (record s { rx = record s.rx { rx_zero_records = incr s.rx.rx_zero_records } }) s
        (λ _.
          k.counters s (record s.rx { rx_zero_records = incr s.rx.rx_zero_records })
            (refl, refl, refl, refl, refl) i)
        (λ _. i))

  failed_inv : (status : KernReturn) (s : Driver) → I s → I (rx_failed kit status s)
  unfolding rx_failed
  failed_inv status s i =
      let x = record s.rx { rx_completion_errors = incr s.rx.rx_completion_errors } in
      let i1 : I (record s { rx = x }) = k.counters s x (refl, refl, refl, refl, refl) i in
      rearm_rx_read_inv false _ (
        if-cases I (is_stalled status) (record_event clear_stall_in (record s { rx = x }))
          (record s { rx = x }) (λ _. k.stall _ i1) (λ _. i1))

  -- From the state with the completion counted and the read no longer armed.
  pub rx_completed_inv :
      (fuel : ℕ) (status : KernReturn) (count : ℕ) (bytes : List ℕ) (s : Driver)
      → ((t : Driver)
          → I t
          → OnSome (λ (r : Driver × ℕ). I r.0) (rx_walk kit fuel bytes count 0 0 t))
      → I (record s { rx = record s.rx { rx_armed = false } })
      → OnSome I (rx_completed kit fuel status count bytes s)
  unfolding rx_completed rx_dispatch
  rx_completed_inv fuel status count bytes s walk i =
      let P = OnSome I in
      let x = record s.rx {
        rx_armed = false;
        rx_completions = incr s.rx.rx_completions;
        in_rx_complete = true;
      } in
      let y = record x { rx_byte_count = u64 (x.rx_byte_count + count) } in
      let z = record y { rx_zero_length = incr y.rx_zero_length } in
      let i1 : I (record s { rx = x }) = k.counters _ x (refl, refl, refl, refl, refl) i in
      OnSome-map I I _
        (λ t j.
          k.counters t (record t.rx { in_rx_complete = false }) (refl, refl, refl, refl, refl) j)
        _
        (if-cases P (is_aborted status && not s.rx.rx_running) _ _ (λ _. i1)
          (λ _.
            if-cases P (not s.rx.rx_running) _ _ (λ _. i1)
              (λ _.
                if-cases P (not (s.handles.rx_bytes && s.handles.pool && s.handles.rx_complete)) _ _
                  (λ _. i1)
                  (λ _.
                    if-cases P (not (is_success status)) _ _ (λ _. failed_inv status _ i1)
                      (λ _.
                        if-cases P (count == 0) _ _
                          (λ _.
                            rearm_rx_read_inv false _
                              (k.counters _ z (refl, refl, refl, refl, refl) i))
                          (λ _.
                            OnSome-map _ I _ (λ r j. walk_end_inv r j) _
                              (walk _ (k.counters _ y (refl, refl, refl, refl, refl) i))))))))
