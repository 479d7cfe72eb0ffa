-- ===== src/Probe/Device/Balance.antt =====
-- The sessions with devices: opened and closed as often, but for the one that is handed out.
use smsc95xx_macos.Base.{
  ℕ, ◌+◌, ◌≡◌, ◌⊎◌, inl, inr, refl, sym, ap, ◌∙◌, subst, true, false, not, Option, none, some, List,
  [], ◌∷◌, if◌then◌else◌, if-cases, is_some, arith,
}
use smsc95xx_macos.Driver.Status.{KernReturn, is_success, is_success-success}
use smsc95xx_macos.Probe.Device.{
  DeviceService, Matching, DeviceCall, device_open, device_close, device_release, Opening,
  is_unconfigured, keep_device, open_service, or_next, open_services, usb_open_id, known_ids,
  is_no_device, open_known, usb_open_first,
}

-- How a call changes the number of open sessions.
abbrev begins : DeviceCall → ℕ
begins (device_open r) = if is_success r then 1 else 0
begins _ = 0

abbrev ends : DeviceCall → ℕ
ends device_close = 1
ends _ = 0

-- References to an interface: each is asked to open once, and released once.
abbrev asks : DeviceCall → ℕ
asks (device_open r) = 1
asks _ = 0

abbrev drops : DeviceCall → ℕ
drops device_release = 1
drops _ = 0

unfoldable pub sum_of : (DeviceCall → ℕ) → List DeviceCall → ℕ
sum_of f [] = 0
sum_of f (c ∷ cs) = f c + sum_of f cs

-- `n` sessions are open, and as many references are held.
abbrev pub InUse : ℕ → List DeviceCall → Type 0
InUse n calls =
    (sum_of begins calls ≡ sum_of ends calls + n) × (sum_of asks calls ≡ sum_of drops calls + n)

-- A device that has a configuration: it answered so, or took one.
abbrev pub IsConfigured : DeviceService → Type 0
IsConfigured s = (is_unconfigured s ≡ false) ⊎ (is_success s.set_result ≡ true)

abbrev pub AllConfigured : Option DeviceService → Type 0
AllConfigured none = Unit {0}
AllConfigured (some s) = IsConfigured s

abbrev pub Opened : Opening → Type 0
Opened o =
    (is_some o.device ≡ is_success o.kr)
    × InUse (if is_some o.device then 1 else 0) o.calls
    × AllConfigured o.device

kept :
    (s : DeviceService) (last : KernReturn) (calls : List DeviceCall)
    → is_success last ≡ false
    → InUse 1 calls
    → IsConfigured s
    → Opened (keep_device s last calls)
unfolding keep_device sum_of
kept s last calls bad (begun, asked) good =
    if-cases Opened s.allocated _ _ (λ _. (sym is_success-success, (begun, asked), good))
      (λ _. (sym bad, (ground (arith, begun), ground (arith, asked)), tt))

no_device-fails : is_success KernReturn.no_device ≡ false
unfolding is_success
no_device-fails = refl

not_ready-fails : is_success KernReturn.not_ready ≡ false
unfolding is_success
not_ready-fails = refl

service-Opened :
    (s : DeviceService) (last : KernReturn) (calls : List DeviceCall)
    → is_success last ≡ false
    → InUse 0 calls
    → Opened (open_service s last calls)
unfolding open_service sum_of
service-Opened s last calls bad (begun, asked) =
    if-cases Opened (not s.queried) _ _ (λ _. (sym bad, (begun, asked), tt))
      (λ _.
        if-cases Opened (not (is_success s.open_result)) _ _
          (λ refused.
            (ground (arith, refused), (ground (arith, begun, refused), ground (arith, asked)), tt))
          (λ opened.
            if-cases Opened (not (is_unconfigured s)) _ _
              (λ configured.
                kept s last _ bad (ground (arith, begun, opened), ground (arith, asked))
                  (inl (ground (arith, configured))))
              (λ _.
                if-cases Opened (is_success s.set_result) _ _
                  (λ set.
                    kept s last _ bad (ground (arith, begun, opened), ground (arith, asked))
                      (inr set))
                  (λ _. (
                    sym not_ready-fails,
                    (ground (arith, begun, opened), ground (arith, asked)),
                    tt,
                  )))))

or_next-Opened :
    (device : Option DeviceService) (o : Opening) (rest : KernReturn → List DeviceCall → Opening)
    → o.device ≡ device
    → Opened o
    → ((kr : KernReturn) (calls : List DeviceCall)
        → is_success kr ≡ false
        → InUse 0 calls
        → Opened (rest kr calls))
    → Opened (or_next device o rest)
unfolding or_next
or_next-Opened (some s) o rest e h k = h
or_next-Opened none o rest e (result, used, _) k =
    k o.kr o.calls (sym result ∙ ap is_some e)
      (subst (λ (d : Option DeviceService). InUse (if is_some d then 1 else 0) o.calls) e used)

services-Opened :
    (ss : List DeviceService) (last : KernReturn) (calls : List DeviceCall)
    → is_success last ≡ false
    → InUse 0 calls
    → Opened (open_services ss last calls)
unfolding open_services
services-Opened [] last calls bad used = (sym bad, used, tt)
services-Opened (s ∷ ss) last calls bad used =
    or_next-Opened _ (open_service s last calls) _ refl (service-Opened s last calls bad used)
      (λ kr calls1 bad1 use1. services-Opened ss kr calls1 bad1 use1)

-- Opening the devices of two ids, whatever the matching services answer, either hands out one device,
-- with its session open and a configuration that it had or took, or hands out none and reports a
-- failure; and every other session that it opened is closed, every other interface released.
pub usb_open_id-Opened :
    (m : Matching) (calls : List DeviceCall) → InUse 0 calls → Opened (usb_open_id m calls)
unfolding usb_open_id
usb_open_id-Opened m calls used =
    if-cases Opened (not m.created) _ _ (λ _. (sym no_device-fails, used, tt))
      (λ _.
        if-cases Opened (not (is_success m.result)) _ _ (λ _. (sym no_device-fails, used, tt))
          (λ _. services-Opened m.services KernReturn.no_device calls no_device-fails used))

known-Opened :
    (bus : ℕ → ℕ → Matching) (ids : List (ℕ × ℕ)) (last : KernReturn) (calls : List DeviceCall)
    → is_success last ≡ false
    → InUse 0 calls
    → Opened (open_known bus ids last calls)
unfolding open_known
known-Opened bus [] last calls bad used = (sym bad, used, tt)
known-Opened bus ((vid, pid) ∷ ids) last calls bad used =
    let o = usb_open_id (bus vid pid) calls in
    or_next-Opened _ o _ refl (usb_open_id-Opened (bus vid pid) calls used) (λ kr calls1 bad1 use1.
      known-Opened bus ids (if is_no_device kr then last else kr) calls1
        (if-cases (λ (r : KernReturn). is_success r ≡ false) (is_no_device kr) last kr (λ _. bad)
          (λ _. bad1))
        use1)

-- The same holds for the first known device.
pub usb_open_first-Opened :
    (bus : ℕ → ℕ → Matching) (calls : List DeviceCall)
    → InUse 0 calls
    → Opened (usb_open_first bus calls)
unfolding usb_open_first
usb_open_first-Opened bus calls used =
    known-Opened bus known_ids KernReturn.no_device calls no_device-fails used
