-- ===== src/Probe/Args.antt =====
-- tools/smsc95xx-probe/main.c: the options and the subcommand among the arguments of main. A text is
-- the codes of its characters, without the NUL at its end.
use smsc95xx_macos.Base.{
  ℕ, Bool, true, false, not, ◌&&◌, ◌||◌, Option, none, some, List, [], ◌∷◌, if◌then◌else◌, ◌==◌,
  get_or, is_some,
}
pub mod Render
pub mod Storing
pub mod Order

-- `strcmp (a, b) == 0`.
unfoldable pub str_eq : List ℕ → List ℕ → Bool
str_eq [] [] = true
str_eq [] (b ∷ bs) = false
str_eq (a ∷ as1) [] = false
str_eq (a ∷ as1) (b ∷ bs) = a == b && str_eq as1 bs

-- "--device" and "--mac".
abbrev pub opt_device : List ℕ
opt_device = 0x2D ∷ 0x2D ∷ 0x64 ∷ 0x65 ∷ 0x76 ∷ 0x69 ∷ 0x63 ∷ 0x65 ∷ []

abbrev pub opt_mac : List ℕ
opt_mac = 0x2D ∷ 0x2D ∷ 0x6D ∷ 0x61 ∷ 0x63 ∷ []

-- The cases of the chain of tests on one argument.
pub data ArgKind : Type 0 where
  device_option mac_option unknown_option word : ArgKind

unfoldable pub arg_kind : List ℕ → ArgKind
arg_kind arg =
    if str_eq arg opt_device
    then device_option
    else if str_eq arg opt_mac
    then mac_option
    else if get_or arg 0 0 == 0x2D
    then unknown_option
    else word

-- `device_selector`, `override_mac` and `subcommand`.
pub record Args : Type 0 where
  pub device_selector : Option (List ℕ)
  pub override_mac : Option (List ℕ)
  pub subcommand : Option (List ℕ)

-- What one case stores; `none` is a repetition.
unfoldable pub set_device : List ℕ → Args → Option Args
set_device v a =
    if is_some a.device_selector then none else some (record a { device_selector = some v })

unfoldable pub set_mac_arg : List ℕ → Args → Option Args
set_mac_arg v a = if is_some a.override_mac then none else some (record a { override_mac = some v })

unfoldable pub set_subcommand : List ℕ → Args → Option Args
set_subcommand v a = if is_some a.subcommand then none else some (record a { subcommand = some v })

-- The rest of the loop, unless there was a call of `usage`.
abbrev pub and_scan : {A : Type 0} → Option Args → (Args → Option A) → Option A
and_scan none rest = none
and_scan (some a) rest = rest a

-- The loop over the arguments; `none` is a call of `usage`. The last argument has no value behind it.
unfoldable pub scan_args : List (List ℕ) → Args → Option Args
scan_args [] a = some a
scan_args (arg ∷ []) a = elim (arg_kind arg) [ word ↦ set_subcommand arg a | _ ↦ none ]
scan_args (arg ∷ v ∷ rest) a = elim (arg_kind arg) [
  | device_option ↦ and_scan (set_device v a) (λ b. scan_args rest b)
  | mac_option ↦ and_scan (set_mac_arg v a) (λ b. scan_args rest b)
  | unknown_option ↦ none
  | word ↦ and_scan (set_subcommand arg a) (λ b. scan_args (v ∷ rest) b)
]

-- The subcommands.
pub data Subcommand : Type 0 where
  id phy eeprom init tx rx all : Subcommand

unfoldable pub subcommand_of : List ℕ → Option Subcommand
subcommand_of s =
    if str_eq s (0x69 ∷ 0x64 ∷ [])
    then some id
    else if str_eq s (0x70 ∷ 0x68 ∷ 0x79 ∷ [])
    then some phy
    else if str_eq s (0x65 ∷ 0x65 ∷ 0x70 ∷ 0x72 ∷ 0x6F ∷ 0x6D ∷ [])
    then some eeprom
    else if str_eq s (0x69 ∷ 0x6E ∷ 0x69 ∷ 0x74 ∷ [])
    then some init
    else if str_eq s (0x74 ∷ 0x78 ∷ [])
    then some tx
    else if str_eq s (0x72 ∷ 0x78 ∷ [])
    then some rx
    else if str_eq s (0x61 ∷ 0x6C ∷ 0x6C ∷ [])
    then some all
    else none

abbrev pub no_args : Args
no_args = record { device_selector = none; override_mac = none; subcommand = none }

-- What the command asks for: the subcommand, the selector and the address.
abbrev pub Request : Type 0
Request = Subcommand × Option (List ℕ) × Option (List ℕ)

unfoldable pub checked_subcommand : Args → Option Subcommand → Option Request
checked_subcommand a none = none
checked_subcommand a (some c) = some (c, a.device_selector, a.override_mac)

unfoldable pub request_of : Args → Option (List ℕ) → Option Request
request_of a none = none
request_of a (some s) = checked_subcommand a (subcommand_of s)

-- From the arguments behind the program's name to the device's opening; `none` is an exit with 2.
unfoldable pub parse_args : List (List ℕ) → Option Request
parse_args [] = none
parse_args (arg ∷ args) = and_scan (scan_args (arg ∷ args) no_args) (λ a. request_of a a.subcommand)
