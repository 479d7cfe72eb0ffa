-- ===== src/Driver/Rx/Walk.antt =====
-- The walk over the records of a transfer: an invariant rule, and fuel that suffices.
use mathlib.Core.Option
use smsc95xx_macos.Base.{
  ℕ, zero, suc, ◌+◌, ◌^◌, ◌≤◌, ◌<◌, ◌≡◌, refl, ap, ◌∙◌, not, ◌&&◌, Option, none, some, List, u32,
  inl, inr, if-cases, ◌==◌, Option-cases, arith,
}
use smsc95xx_macos.Proto.Rx.{RxRecord, rx_next}
use smsc95xx_macos.Proto.Rx.Bounds.{rx_next-IsInside, IsOffset, rx_next-IsOffset}
use smsc95xx_macos.Driver.Status.{KernReturn, is_success, is_aborted}
use smsc95xx_macos.Driver.Kit.{Kit}
use smsc95xx_macos.Driver.State.{Driver}
use smsc95xx_macos.Driver.Tx.Loop.{OnSome}
use smsc95xx_macos.Driver.Rx.{
  RecordEnd, next_record, give_up, rx_record, rx_walk, rx_walk_from, rx_walk_on, rx_dispatch,
  rx_completed,
}
use smsc95xx_macos.Driver.Rx.Steps.{ended}

abbrev Total : {A : Type 0} → Option A → Type 0
Total o = (a : _) × (o ≡ some a)

map-Total : {A B : Type 0} (f : A → B) (o : Option A) → Total o → Total (Option.map f o)
map-Total f o (a, e) = (f a, ap (Option.map f) e)

module _ (kit : Kit) where
  on_end :
      (I : Driver → Type 0) (n : ℕ) (e : RecordEnd) (again : Driver → Option (Driver × ℕ))
      → I (ended e)
      → ((s : Driver) → I s → OnSome (λ (r : Driver × ℕ). I r.0) (again s))
      → OnSome (λ (r : Driver × ℕ). I r.0) (rx_walk_on again n e)
  on_end I n (next_record s) again i next = next s i
  on_end I n (give_up s) again i next = i

  walk_none :
      (fuel : ℕ) (bytes : List ℕ) (count at n : ℕ) (s : Driver)
      → rx_next bytes count at ≡ none
      → rx_walk kit (suc fuel) bytes count at n s ≡ some (s, n)
  unfolding rx_walk
  walk_none fuel bytes count at n s e = ap (rx_walk_from _ _) e

  walk_some :
      (fuel : ℕ) (bytes : List ℕ) (count at n : ℕ) (s : Driver) (r : RxRecord)
      → rx_next bytes count at ≡ some r
      → rx_walk kit (suc fuel) bytes count at n s
        ≡ rx_walk_on
            (rx_walk kit fuel bytes count r.offset (u32 (n + 1)))
            (u32 (n + 1))
            (rx_record kit bytes r s)
  unfolding rx_walk
  walk_some fuel bytes count at n s r e = ap (rx_walk_from _ _) e

  -- What each record keeps holds at the end of the walk.
  pub rx_walk_inv :
      (I : Driver → Type 0) (bytes : List ℕ) (count : ℕ)
      → ((at : ℕ) (r : RxRecord) (s : Driver)
          → IsOffset count at
          → rx_next bytes count at ≡ some r
          → I s
          → I (ended (rx_record kit bytes r s)))
      → (fuel at n : ℕ) (s : Driver) → IsOffset count at
      → I s
      → OnSome (λ (r : Driver × ℕ). I r.0) (rx_walk kit fuel bytes count at n s)
  rx_walk_inv I bytes count keep zero at n s o i = unfold rx_walk in tt
  rx_walk_inv I bytes count keep (suc fuel) at n s o i =
      elim (Option-cases (rx_next bytes count at)) [
        | inl e ↦ rw (walk_none fuel bytes count at n s e) i
        | inr (r, e) ↦ rw (walk_some fuel bytes count at n s r e) (
            on_end I (u32 (n + 1)) (rx_record kit bytes r s) _ (keep at r s o e i) (λ t j.
              rx_walk_inv I bytes count keep fuel r.offset (u32 (n + 1)) t
                (rx_next-IsOffset bytes count at r o e) j))
      ]

  -- A walk whose fuel and offset together reach 4 past the transfer's length ends.
  pub rx_walk_total :
      (bytes : List ℕ) (count fuel at n : ℕ) (s : Driver)
      → IsOffset count at
      → count + 4 ≤ at + fuel
      → (r : Driver × ℕ) × (rx_walk kit fuel bytes count at n s ≡ some r)
  rx_walk_total bytes count zero at n s o h = absurd (omega (arith, o.near))
  rx_walk_total bytes count (suc fuel) at n s o h = elim (Option-cases (rx_next bytes count at)) [
    | inl e ↦ ((s, n), walk_none fuel bytes count at n s e)
    | inr (r, e) ↦
        let i = rx_next-IsInside bytes count at o.small o.near o.aligned e in
        let t = end_total (rx_record kit bytes r s) (u32 (n + 1)) _ (λ t.
          rx_walk_total bytes count fuel r.offset (u32 (n + 1)) t
            (rx_next-IsOffset bytes count at r o e) (omega (arith, i.advances))) in
        (t.0, walk_some fuel bytes count at n s r e ∙ t.1)
  ]
    where
      end_total :
          (e : RecordEnd) (n : ℕ) (again : Driver → Option (Driver × ℕ))
          → ((t : Driver) → (r : Driver × ℕ) × (again t ≡ some r))
          → (r : Driver × ℕ) × (rx_walk_on again n e ≡ some r)
      end_total (next_record t) n again h = h t
      end_total (give_up t) n again h = ((t, n), refl)

  -- Whatever the bytes of a transfer of fewer than 2^62 of them, and whatever the environment answers,
  -- the walk over its records ends: as much fuel as bytes, and 4, is enough for a completion.
  pub rx_completed-total :
      (fuel count : ℕ) (status : KernReturn) (bytes : List ℕ) (s : Driver)
      → count < 2 ^ 62
      → count + 4 ≤ fuel
      → (t : Driver) × (rx_completed kit fuel status count bytes s ≡ some t)
  unfolding rx_completed rx_dispatch
  rx_completed-total fuel count status bytes s small enough = map-Total _ _ (
      if-cases Total (is_aborted status && not s.rx.rx_running) _ _ (λ _. (_, refl))
        (λ _.
          if-cases Total (not s.rx.rx_running) _ _ (λ _. (_, refl))
            (λ _.
              if-cases Total (not (s.handles.rx_bytes && s.handles.pool && s.handles.rx_complete)) _
                _ (λ _. (_, refl))
                (λ _.
                  if-cases Total (not (is_success status)) _ _ (λ _. (_, refl))
                    (λ _.
                      if-cases Total (count == 0) _ _ (λ _. (_, refl))
                        (λ _. map-Total _ _ (
                          rx_walk_total bytes count fuel 0 0 _
                            (record { small = small; near = omega arith; aligned = refl })
                            (omega arith))))))))
