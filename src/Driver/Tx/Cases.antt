-- ===== src/Driver/Tx/Cases.antt =====
-- What `tx_submit_packet` can do: refuse the packet, or start one transfer of a header and the frame.
use mathlib.Core.Path.{subst}
use smsc95xx_macos.Base.{
  ℕ, ◌+◌, ◌≤◌, ◌≡◌, inl, inr, refl, sym, Bool, true, false, not, ◌&&◌, ◌||◌, Option, none, some,
  List, ◌∷◌, ◌++◌, ◌==◌, incr, take, drop, length, write_at, take-append, ltb, u32, u64, arith,
  Bool-cases, Option-cases,
}
use smsc95xx_macos.Proto.Tx.Header.{header, tx_prepend_writes, tx_prepend_refuses}
use smsc95xx_macos.Driver.Status.{KernReturn, is_success}
use smsc95xx_macos.Driver.Kit.{Kit, tx_dequeue, read_run, length-read_run}
use smsc95xx_macos.Driver.State.{Driver}
use smsc95xx_macos.Driver.Tx.{
  tx_buffer_len, tx_max_frame, pool_buffer_size, tx_reject, tx_start_transfer, tx_frame_packet,
  tx_submit_packet, tx_return_packet, tx_dispose, tx_drain_round, TxRound, stop, sent, refused,
}

abbrev pub with_bytes : Option (List ℕ) → Driver → Driver
with_bytes b s = record s { tx = record s.tx { tx_bytes = b } }

-- The frame behind the header, with what the buffer held before at its end.
abbrev pub filled_buffer : ℕ → List ℕ → List ℕ → List ℕ
filled_buffer n run bytes = write_at 8 run (header n ++ drop 8 bytes)

-- What was tested of the packet before its frame is read: `n` bytes at the address `at`.
pub record Readable (kit : Kit) (packet at n : ℕ) (s : Driver) : Type 0 where
  pub size : n ≡ kit.data_length s.history packet
  pub place : at ≡ u64 (kit.data_address s.history packet + kit.data_off s.history packet)
  pub low : 42 ≤ n
  pub high : n ≤ 1514
  pub mapped : 0x100000 ≤ at
  pub in_buffer : u64 (kit.data_off s.history packet + n) ≤ pool_buffer_size

transfer_bytes :
    (n : ℕ) (run bytes : List ℕ)
    → length run ≡ n
    → n ≤ 1514
    → take (u32 (8 + n)) (filled_buffer n run bytes) ≡ header n ++ run
transfer_bytes n run bytes e h =
    subst (λ k. take k (filled_buffer n run bytes) ≡ header n ++ run) size
      (take-append (header n ++ run) (drop (8 + length run) (header n ++ drop 8 bytes)))
  where
    size : length (header n ++ run) ≡ u32 (8 + n)
    size = omega arith

module _ {ℓ} (kit : Kit) (P : KernReturn × Driver → Type ℓ) (packet : ℕ) (s : Driver) where
  abbrev Rejects : Type ℓ
  Rejects =
      (ret : KernReturn) (b : Option (List ℕ))
      → is_success ret ≡ false
      → P (tx_reject ret (with_bytes b s))

  abbrev Starts : Type ℓ
  Starts =
      (bytes : List ℕ) (at n : ℕ)
      → s.tx.tx_bytes ≡ some bytes
      → Readable kit packet at n s
      → let run = read_run (kit.memory s.history) at n in
        P (
          tx_start_transfer kit packet (header n ++ run)
            (with_bytes (some (filled_buffer n run bytes)) s))

  frame_cases :
      Rejects
      → Starts
      → (n : ℕ) (bytes : List ℕ) → s.tx.tx_bytes ≡ some bytes
      → n ≡ kit.data_length s.history packet
      → P (tx_frame_packet kit packet n bytes s)
  unfolding tx_frame_packet
  frame_cases r t n bytes e size = elim (Bool-cases (ltb n 42 || ltb 1514 n)) [
    | inl out ↦
        rw (tx_prepend_refuses bytes tx_buffer_len n (inr (ground arith)))
          (r KernReturn.bad_argument (some bytes) (unfold is_success in refl))
    | inr fits ↦
        let low : 42 ≤ n = ground arith in
        let high : n ≤ 1514 = ground arith in
        let at = u64 (kit.data_address s.history packet + kit.data_off s.history packet) in
        let run = read_run (kit.memory s.history) at n in
        let bad : Bool =
          ltb at 0x100000 || ltb pool_buffer_size (u64 (kit.data_off s.history packet + n)) in
        let started = λ (fine : bad ≡ false).
          subst
            (λ transfer. P (
              tx_start_transfer kit packet transfer
                (with_bytes (some (filled_buffer n run bytes)) s)))
            (sym (transfer_bytes n run bytes (length-read_run (kit.memory s.history) at n) high))
            (t bytes at n e (record {
              size = size;
              place = refl;
              low = low;
              high = high;
              mapped = ground arith;
              in_buffer = ground arith;
            })) in
        rw (tx_prepend_writes bytes tx_buffer_len n (omega arith) low high) (elim (Bool-cases bad) [
          | inl unmapped ↦ rw unmapped (
              r KernReturn.bad_argument (some (header n ++ drop 8 bytes))
                (unfold is_success in refl))
          | inr fine ↦ rw fine (started fine)
        ])
  ]

  -- A claim about what `tx_submit_packet` returns holds if it holds of each refusal, and of the one
  -- transfer that it can start.
  pub submit_cases : Rejects → Starts → P (tx_submit_packet kit packet s)
  unfolding tx_submit_packet
  submit_cases r t =
      let n = kit.data_length s.history packet in
      let gone = not (s.handles.tx_buffer && s.handles.pipe_out && s.handles.tx_action) in
      elim (Bool-cases (n == 0 || ltb tx_max_frame n)) [
        | inl bad ↦ rw bad (r KernReturn.bad_argument s.tx.tx_bytes (unfold is_success in refl))
        | inr fine ↦ rw fine (elim (Option-cases s.tx.tx_bytes) [
          | inl e ↦
              rw (e, tx_submit_packet)
                (r KernReturn.not_attached s.tx.tx_bytes (unfold is_success in refl))
          | inr (bytes, e) ↦ simp e (elim (Bool-cases gone) [
            | inl g ↦ rw g (r KernReturn.not_attached (some bytes) (unfold is_success in refl))
            | inr g ↦ rw g (frame_cases r t n bytes e refl)
          ])
        ])
      ]

-- The state with a packet just taken off the submission queue.
abbrev pub took : ℕ → ℕ → Driver → Driver
took n p s = record s {
  tx = record s.tx { tx_dequeued = incr s.tx.tx_dequeued };
  history = tx_dequeue n (some p) ∷ s.history;
}

-- A claim about one round holds if it holds of an empty queue, of a count without a packet, and of a
-- packet that was submitted or refused.
pub round_cases {ℓ} :
    (kit : Kit) (P : TxRound → Type ℓ) (s : Driver)
    → ((n : ℕ) (o : Option ℕ)
        → (n == 0) ≡ true
        → P (stop (record s { history = tx_dequeue n o ∷ s.history })))
    → ((n : ℕ)
        → (n == 0) ≡ false
        → P (
            stop (record s {
              tx = record s.tx { tx_errors = incr s.tx.tx_errors };
              history = tx_dequeue n none ∷ s.history;
            })))
    → ((n p : ℕ)
        → (n == 0) ≡ false
        → kit.dequeue_tx s.history ≡ (n, some p)
        → is_success (tx_submit_packet kit p (took n p s)).0 ≡ true
        → P (sent (tx_submit_packet kit p (took n p s)).1))
    → ((n p : ℕ)
        → (n == 0) ≡ false
        → kit.dequeue_tx s.history ≡ (n, some p)
        → is_success (tx_submit_packet kit p (took n p s)).0 ≡ false
        → P (refused (tx_return_packet kit (some p) (tx_submit_packet kit p (took n p s)).1)))
    → P (tx_drain_round kit s)
unfolding tx_drain_round
round_cases kit P s empty null good bad =
    let n = (kit.dequeue_tx s.history).0 in
    elim (Bool-cases (n == 0)) [
      | inl e ↦ rw e (empty n (kit.dequeue_tx s.history).1 e)
      | inr e ↦ rw e (dispose (kit.dequeue_tx s.history).1 n e refl)
    ]
  where
    dispose :
        (o : Option ℕ) (n : ℕ)
        → (n == 0) ≡ false
        → kit.dequeue_tx s.history ≡ (n, o)
        → P (tx_dispose kit o (record s { history = tx_dequeue n o ∷ s.history }))
    dispose none n e q = unfold tx_dispose in null n e
    dispose (some p) n e q =
        unfold tx_dispose in
        elim (Bool-cases (is_success (tx_submit_packet kit p (took n p s)).0)) [
          | inl k ↦ rw k (good n p e q k)
          | inr k ↦ rw k (bad n p e q k)
        ]
