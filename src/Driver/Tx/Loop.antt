-- ===== src/Driver/Tx/Loop.antt =====
-- The drain loop: an invariant rule, and fuel that suffices.
use mathlib.Core.Option
use smsc95xx_macos.Base.{
  subst, ℕ, zero, suc, ◌+◌, ◌<◌, ◌≡◌, refl, Bool, true, false, Option, none, some, inl, inr, ◌∙◌,
  arith, Bool-cases,
}
use smsc95xx_macos.Driver.Kit.{Kit}
use smsc95xx_macos.Driver.State.{Driver}
use smsc95xx_macos.Driver.Tx.{
  TxRound, stop, sent, refused, tx_loop_rest, tx_drain_round, tx_drain_loop,
}

-- What holds of a result that is there.
abbrev pub OnSome {ℓ κ} : {A : Type ℓ} → (A → Type κ) → Option A → Type κ
OnSome P none = Unit
OnSome P (some a) = P a

pub OnSome-map :
    {A B : Type 0} (P : A → Type 0) (Q : B → Type 0) (f : A → B)
    → ((a : A) → P a → Q (f a))
    → (o : Option A) → OnSome P o
    → OnSome Q (Option.map f o)
OnSome-map P Q f g none h = tt
OnSome-map P Q f g (some a) h = g a h

pub OnSome-weaken :
    {A : Type 0} (P Q : A → Type 0)
    → ((a : A) → P a → Q a)
    → (o : Option A) → OnSome P o
    → OnSome Q o
OnSome-weaken P Q g none h = tt
OnSome-weaken P Q g (some a) h = g a h

pub OnSome-at {ℓ κ} :
    {A : Type ℓ} (P : A → Type κ) (a : A) {o : Option A} → OnSome P o → o ≡ some a → P a
OnSome-at P a h e = subst (OnSome P) e h

abbrev pub after : TxRound → Driver
after (stop s) = s
after (sent s) = s
after (refused s) = s

abbrev pub goes_on : TxRound → Bool
goes_on (stop s) = false
goes_on (sent s) = true
goes_on (refused s) = true

module _ (kit : Kit) where
  pub loop_idle :
      (fuel n : ℕ) (s : Driver)
      → s.tx.tx_in_flight ≡ false
      → tx_drain_loop kit (suc fuel) n s
        ≡ tx_loop_rest (tx_drain_loop kit fuel) n (tx_drain_round kit s)
  unfolding tx_drain_loop
  loop_idle fuel n s e = simp e

  pub loop_busy :
      (fuel n : ℕ) (s : Driver)
      → s.tx.tx_in_flight ≡ true
      → tx_drain_loop kit (suc fuel) n s ≡ some (s, n)
  unfolding tx_drain_loop
  loop_busy fuel n s e = simp e

  rest_inv {ℓ} :
      (I : Driver → Type ℓ) (again : ℕ → Driver → Option (Driver × ℕ))
      → ((n : ℕ) (s : Driver) → I s → OnSome (λ r. I r.0) (again n s))
      → (n : ℕ) (r : TxRound) → I (after r)
      → OnSome (λ r. I r.0) (tx_loop_rest again n r)
  rest_inv I again next n (stop s) i = i
  rest_inv I again next n (sent s) i = next (n + 1) s i
  rest_inv I again next n (refused s) i = next n s i

  -- What each round keeps holds at the end of the loop.
  pub tx_drain_loop_inv {ℓ} :
      (I : Driver → Type ℓ)
      → ((s : Driver) → s.tx.tx_in_flight ≡ false → I s → I (after (tx_drain_round kit s)))
      → (fuel n : ℕ) (s : Driver) → I s
      → OnSome (λ r. I r.0) (tx_drain_loop kit fuel n s)
  tx_drain_loop_inv I keep zero n s i = unfold tx_drain_loop in tt
  tx_drain_loop_inv I keep (suc fuel) n s i = elim (Bool-cases s.tx.tx_in_flight) [
    | inl busy ↦ rw (loop_busy fuel n s busy) i
    | inr idle ↦ rw (loop_idle fuel n s idle) (
        rest_inv I (tx_drain_loop kit fuel) (tx_drain_loop_inv I keep fuel) n (tx_drain_round kit s)
          (keep s idle i))
  ]

  rest_total :
      (b : ℕ) (measure : Driver → ℕ) (again : ℕ → Driver → Option (Driver × ℕ))
      → ((n : ℕ) (s : Driver) → measure s < b → (r : Driver × ℕ) × (again n s ≡ some r))
      → (n : ℕ) (r : TxRound) → (goes_on r ≡ true → measure (after r) < b)
      → (t : Driver × ℕ) × (tx_loop_rest again n r ≡ some t)
  rest_total b measure again next n (stop s) h = ((s, n), refl)
  rest_total b measure again next n (sent s) h = next (n + 1) s (h refl)
  rest_total b measure again next n (refused s) h = next n s (h refl)

  -- If each round that goes on lowers a measure, the loop ends with more fuel than the measure.
  pub tx_drain_loop_total :
      (measure : Driver → ℕ)
      → ((s : Driver)
          → s.tx.tx_in_flight ≡ false
          → goes_on (tx_drain_round kit s) ≡ true
          → measure (after (tx_drain_round kit s)) < measure s)
      → (fuel n : ℕ) (s : Driver) → measure s < fuel
      → (r : Driver × ℕ) × (tx_drain_loop kit fuel n s ≡ some r)
  tx_drain_loop_total measure falls zero n s h = absurd (omega arith)
  tx_drain_loop_total measure falls (suc fuel) n s h = elim (Bool-cases s.tx.tx_in_flight) [
    | inl busy ↦ ((s, n), loop_busy fuel n s busy)
    | inr idle ↦
        let t =
          rest_total fuel measure (tx_drain_loop kit fuel) (tx_drain_loop_total measure falls fuel)
            n (tx_drain_round kit s) (λ g. omega (arith, falls s idle g)) in
        (t.0, loop_idle fuel n s idle ∙ t.1)
  ]
