-- ===== src/Driver/Rx/Steps.antt =====
-- What each step of the receive path can do: rules that reduce a claim about a step to its outcomes.
use smsc95xx_macos.Base.{
  ℕ, ◌+◌, ◌-◌, ◌≤◌, ◌<◌, ◌≡◌, refl, not, Option, none, some, List, ltb, leb, ◌==◌, if-cases, incr,
  u64, length, take, drop, bit_and, bit_or, arith,
}
use smsc95xx_macos.Regs.{rx_crc_len, rx_sts_error_sum, rx_sts_filter_fail}
use smsc95xx_macos.Proto.Rx.{RxRecord}
use smsc95xx_macos.Driver.Kit.{Kit}
use smsc95xx_macos.Driver.State.{Driver}
use smsc95xx_macos.Driver.Tx.{pool_buffer_size}
use smsc95xx_macos.Driver.Rx.{
  RecordEnd, next_record, give_up, drop_record, for_err_sum, for_short, for_oversize, for_no_buffer,
  for_bad_addr, for_bad_fit, rx_acquire_packet, rx_deallocate, rx_hand_over, rx_fill_packet,
  rx_receive, rx_record, rx_max_payload,
}

abbrev pub ended : RecordEnd → Driver
ended (next_record s) = s
ended (give_up s) = s

-- The state with a record counted.
abbrev pub counted : Driver → Driver
counted s = record s { rx = record s.rx { rx_records = incr s.rx.rx_records } }

-- The payload of a decoded record.
abbrev pub payload_of : List ℕ → RxRecord → List ℕ
payload_of bytes r = take (r.frame_len - rx_crc_len) (drop r.frame bytes)

-- A claim about the state after a record holds if it holds of a record dropped before a packet was
-- taken, of a record without a packet, of a packet handed back, and of a payload handed over.
pub record_cases {ℓ} :
    (kit : Kit) (P : Driver → Type ℓ) (bytes : List ℕ) (r : RxRecord) (s : Driver)
    → P (drop_record for_err_sum (counted s))
    → P (drop_record for_short (counted s))
    → P (drop_record for_oversize (counted s))
    → ((t : Driver)
        → rx_acquire_packet kit (counted s) ≡ (none, t)
        → P (drop_record for_no_buffer t))
    → ((p : ℕ) (t : Driver)
        → rx_acquire_packet kit (counted s) ≡ (some p, t)
        → P (rx_deallocate kit p (drop_record for_bad_addr t)))
    → ((p : ℕ) (t : Driver)
        → rx_acquire_packet kit (counted s) ≡ (some p, t)
        → P (rx_deallocate kit p (drop_record for_bad_fit t)))
    → ((p : ℕ) (t : Driver)
        → rx_acquire_packet kit (counted s) ≡ (some p, t)
        → rx_crc_len < r.frame_len
        → r.frame_len ≤ rx_max_payload + rx_crc_len
        → 0x100000 ≤ kit.data_address t.history p
        → u64 (kit.data_off t.history p + length (payload_of bytes r)) ≤ pool_buffer_size
        → P (rx_hand_over kit p (kit.data_off t.history p) (payload_of bytes r) t))
    → P (ended (rx_record kit bytes r s))
unfolding rx_record rx_fill_packet rx_receive
record_cases kit P bytes r s err short over no_buffer bad_addr bad_fit hand =
    let Q = λ (e : RecordEnd). P (ended e) in
    if-cases Q (not (bit_and r.status (bit_or rx_sts_error_sum rx_sts_filter_fail) == 0)) _ _
      (λ _. err)
      (λ _.
        if-cases Q (leb r.frame_len rx_crc_len) _ _ (λ _. short)
          (λ long.
            if-cases Q (ltb rx_max_payload (r.frame_len - rx_crc_len)) _ _ (λ _. over)
              (λ fits.
                receive (rx_acquire_packet kit (counted s)).0 (rx_acquire_packet kit (counted s)).1
                  refl (ground arith) (ground arith))))
  where
    fill :
        (p : ℕ) (t : Driver)
        → rx_acquire_packet kit (counted s) ≡ (some p, t)
        → rx_crc_len < r.frame_len
        → r.frame_len ≤ rx_max_payload + rx_crc_len
        → P (ended (rx_fill_packet kit p (payload_of bytes r) t))
    fill p t e long fits =
        let Q = λ (e : RecordEnd). P (ended e) in
        if-cases Q (ltb (kit.data_address t.history p) 0x100000) _ _ (λ _. bad_addr p t e)
          (λ mapped.
            if-cases Q
              (ltb pool_buffer_size (u64 (kit.data_off t.history p + length (payload_of bytes r))))
              _ _ (λ _. bad_fit p t e)
              (λ inside. hand p t e long fits (ground arith) (ground arith)))

    receive :
        (o : Option ℕ) (t : Driver)
        → rx_acquire_packet kit (counted s) ≡ (o, t)
        → rx_crc_len < r.frame_len
        → r.frame_len ≤ rx_max_payload + rx_crc_len
        → P (ended (rx_receive kit o (payload_of bytes r) t))
    receive none t e long fits = no_buffer t e
    receive (some p) t e long fits = fill p t e long fits
