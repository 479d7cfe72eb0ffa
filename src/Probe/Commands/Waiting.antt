-- ===== src/Probe/Commands/Waiting.antt =====
-- What a wait of cmd_rx, and the outcome of one, is.
use smsc95xx_macos.Base.{
  ℕ, zero, suc, ◌+◌, ◌<◌, ◌≤◌, ◌≡◌, ◌≢◌, ◌∙◌, ◌⊎◌, inl, inr, sym, ap, subst, true, false, some,
  List, if◌then◌else◌, ◌==◌, is_some, write_at, Option-cases, arith,
}
use smsc95xx_macos.Proto.Rx.{rx_next}
use smsc95xx_macos.Proto.Rx.Bounds.{IsOffset, rx_next-IsOffset, rx_next-IsInside}
use smsc95xx_macos.Driver.Status.{is_success}
use smsc95xx_macos.Probe.Commands.{World, Link, is_timeout, count_next, count_frames, usb_bulk_in}
use smsc95xx_macos.Probe.Commands.Claiming.{IsSound, Sound-pipes}

-- No transfer is longer than the buffer that it was given.
abbrev pub FitsBuffer : World → Type 0
FitsBuffer w = (n : ℕ) → (w.read_pipe n).1 ≤ 4096

pub count_frames-total :
    (buf : List ℕ) (got fuel at n : ℕ)
    → IsOffset got at
    → got + 4 ≤ at + fuel
    → (m : ℕ) × (count_frames fuel buf got at n ≡ some m)
unfolding count_frames
count_frames-total buf got zero at n o h = absurd (omega (arith, o.near))
count_frames-total buf got (suc fuel) at n o h = elim (Option-cases (rx_next buf got at)) [
  | inl e ↦ (n, ap (count_next (λ at1 n1. count_frames fuel buf got at1 n1) n) e)
  | inr (r, e) ↦
      let i = rx_next-IsInside buf got at o.small o.near o.aligned e in
      let (m, em) =
        count_frames-total buf got fuel r.offset (n + 1) (rx_next-IsOffset buf got at r o e)
          (omega (arith, i.advances)) in
      (m, ap (count_next (λ at1 n1. count_frames fuel buf got at1 n1) n) e ∙ em)
]

-- A transfer that timed out, or succeeded without data.
abbrev pub IsIdle : World → ℕ → Type 0
IsIdle w j =
    (is_timeout (w.read_pipe j).0 ≡ true)
    ⊎ ((is_success (w.read_pipe j).0 ≡ true) × ((w.read_pipe j).1 ≡ 0))

-- From one transfer to another there was no data, and none failed.
abbrev pub Waited : World → ℕ → ℕ → Type 0
Waited w from to = (j : ℕ) → from ≤ j → j < to → IsIdle w j

-- The transfer `k` decides: it fails, or it is walked over, and then a frame in it decides.
abbrev pub Decided : World → ℕ → ℕ → Type 0
Decided w k rc =
    (is_timeout (w.read_pipe k).0 ≡ false)
    × (((is_success (w.read_pipe k).0 ≡ false) × (rc ≡ 1))
        ⊎ ((is_success (w.read_pipe k).0 ≡ true)
            × ((w.read_pipe k).1 ≢ 0)
            × ((buf : List ℕ) × (m : ℕ) × (count_frames ((w.read_pipe k).1 + 4)
                    (write_at 0 (w.read_pipe k).2 buf) (w.read_pipe k).1 0 0
                  ≡ some m)
                × (rc ≡ (if m == 0 then 1 else 0)))))

-- Within `n` transfers from `from` on: all were idle, or the first that was not decided.
abbrev pub ReceivedFrom : World → ℕ → ℕ → List (List ℕ) → ℕ × Link → Type 0
ReceivedFrom w n from sent (rc, l1) =
    IsSound l1
    × (l1.sent ≡ sent)
    × (((rc ≡ 1) × Waited w from (from + n))
        ⊎ ((k : ℕ) × (from ≤ k)
            × (k < from + n)
            × Waited w from k
            × (l1.reads ≡ k + 1)
            × Decided w k rc))

abbrev pub Received : World → ℕ → Link → ℕ × Link → Type 0
Received w n l = ReceivedFrom w n l.reads l.sent

pub usb_bulk_in-reads :
    (w : World) (buf : List ℕ) (l : Link)
    → IsSound l
    → is_some l.handle.iface ≡ true
    → usb_bulk_in w buf l ≡ (
      (w.read_pipe l.reads).0,
      (w.read_pipe l.reads).1,
      write_at 0 (w.read_pipe l.reads).2 buf,
      record l { reads = l.reads + 1 },
    )
unfolding usb_bulk_in
usb_bulk_in-reads w buf l sound there =
    let pipes = Sound-pipes l.handle l.handle.iface sound there in ground (arith, there, pipes.0)

sooner : (a j : ℕ) → a ≤ j → (j ≡ a) ⊎ (a + 1 ≤ j)
sooner a j h = ground arith

pub Waited-before :
    (w : World) (from to : ℕ) → IsIdle w from → Waited w (from + 1) to → Waited w from to
Waited-before w from to idle waited j low high = elim (sooner from j low) [
  | inl e ↦ subst (IsIdle w) (sym e) idle
  | inr later ↦ waited j later high
]

-- One idle transfer, before the others.
pub waited-Received :
    (w : World) (n : ℕ) (l : Link) (r : ℕ × Link)
    → IsIdle w l.reads
    → Received w n (record l { reads = l.reads + 1 }) r
    → Received w (suc n) l r
waited-Received w n l (rc, l1) idle (sound, sent, inl (code, waited)) =
    let same : l.reads + 1 + n ≡ l.reads + suc n = omega arith in
    (
      sound,
      sent,
      inl (
        code,
        Waited-before w l.reads (l.reads + suc n) idle (subst (Waited w (l.reads + 1)) same waited),
      ),
    )
waited-Received w n l (rc, l1) idle (sound, sent, inr (k, low, high, waited, reads, decided)) = (
  sound,
  sent,
  inr (
    k,
    omega (arith, low),
    omega (arith, high),
    Waited-before w l.reads k idle waited,
    reads,
    decided,
  ),
)
