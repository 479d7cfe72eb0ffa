-- ===== src/Reenumerate.antt =====
-- tools/usb-reenumerate/usb_reenumerate.c: forcing a device to enumerate again. What IOKit answers is a
-- parameter.
use smsc95xx_macos.Base.{
  ℕ, ◌+◌, ◌≡◌, refl, Bool, true, false, not, List, [], ◌∷◌, if◌then◌else◌, if-cases, ◌==◌, arith,
}
use smsc95xx_macos.Driver.Status.{KernReturn, is_success}

-- The answers: of IOServiceMatching, IOServiceGetMatchingServices and IOIteratorNext, of the creation of
-- the plug-in and of QueryInterface, and of the device.
pub record Answers : Type 0 where
  pub matched : Bool
  pub services : KernReturn
  pub service : Bool
  pub plugin : Bool
  pub queried : Bool
  pub opened : KernReturn
  pub reenumerated : KernReturn

-- What is got hold of, and given back.
pub data Handle : Type 0 where
  iterator service_object plugin_interface device_interface session : Handle

pub data Call : Type 0 where
  get drop : Handle → Call
  reenumerate : Call

-- From the plug-in on, with the calls so far.
with_device : Answers → List Call → ℕ × List Call
with_device a calls =
    let queried = drop plugin_interface ∷ get device_interface ∷ calls in
    let opened = reenumerate ∷ get session ∷ queried in
    let closed = drop device_interface ∷ drop session ∷ opened in
    if not a.queried
    then (1, drop plugin_interface ∷ calls)
    else if not (is_success a.opened)
    then (1, drop device_interface ∷ queried)
    else ((if is_success a.reenumerated then 0 else 1), closed)

-- `main` with `argc`: the exit code, and the calls, the latest first.
pub main : Answers → ℕ → ℕ × List Call
main a argc =
    let found = drop iterator ∷ get service_object ∷ get iterator ∷ [] in
    if not (argc == 3)
    then (2, [])
    else if not a.matched
    then (1, [])
    else if not (is_success a.services)
    then (1, [])
    else if not a.service
    then (1, drop iterator ∷ get iterator ∷ [])
    else if not a.plugin
    then (1, drop service_object ∷ found)
    else with_device a (drop service_object ∷ get plugin_interface ∷ found)

abbrev pub same : Handle → Handle → Bool
same iterator iterator = true
same service_object service_object = true
same plugin_interface plugin_interface = true
same device_interface device_interface = true
same session session = true
same _ _ = false

-- How often a resource was got hold of, and given back.
abbrev pub gets : Handle → List Call → ℕ
gets r [] = 0
gets r (get q ∷ cs) = (if same r q then 1 else 0) + gets r cs
gets r (_ ∷ cs) = gets r cs

abbrev pub drops : Handle → List Call → ℕ
drops r [] = 0
drops r (drop q ∷ cs) = (if same r q then 1 else 0) + drops r cs
drops r (_ ∷ cs) = drops r cs

-- Nothing is kept, and a 0 is a device that was asked and agreed.
abbrev pub Finished : Answers → ℕ × List Call → Type 0
Finished a (rc, calls) =
    ((r : Handle) → gets r calls ≡ drops r calls)
    × (rc ≡ 0 → (is_success a.opened ≡ true) × (is_success a.reenumerated ≡ true))

device-Finished :
    (a : Answers)
    → Finished a (
        with_device a (
          drop service_object
          ∷ get plugin_interface
          ∷ drop iterator
          ∷ get service_object
          ∷ get iterator
          ∷ []))
unfolding with_device
device-Finished a =
    if-cases (Finished a) (not a.queried) _ _
      (λ _. ((λ r. omega arith), (λ z. absurd (omega (arith, z)))))
      (λ _.
        if-cases (Finished a) (not (is_success a.opened)) _ _
          (λ _. ((λ r. omega arith), (λ z. absurd (omega (arith, z)))))
          (λ ok. ((λ r. omega arith), (λ z. ground (arith, ok, z)))))

-- However IOKit answers, the tool gives back all that it got hold of, once each, and closes the session
-- that it opened; and it exits with 0 only if the device was opened and agreed to enumerate again.
pub main-Finished : (a : Answers) (argc : ℕ) → Finished a (main a argc)
unfolding main
main-Finished a argc =
    if-cases (Finished a) (not (argc == 3)) _ _
      (λ _. ((λ r. refl), (λ z. absurd (omega (arith, z)))))
      (λ _.
        if-cases (Finished a) (not a.matched) _ _
          (λ _. ((λ r. refl), (λ z. absurd (omega (arith, z)))))
          (λ _.
            if-cases (Finished a) (not (is_success a.services)) _ _
              (λ _. ((λ r. refl), (λ z. absurd (omega (arith, z)))))
              (λ _.
                if-cases (Finished a) (not a.service) _ _
                  (λ _. ((λ r. omega arith), (λ z. absurd (omega (arith, z)))))
                  (λ _.
                    if-cases (Finished a) (not a.plugin) _ _
                      (λ _. ((λ r. omega arith), (λ z. absurd (omega (arith, z)))))
                      (λ _. device-Finished a)))))
