-- ===== src/Probe/Args/Order.antt =====
-- Which arguments are accepted, and what is made of them.
use mathlib.Core.List.{Permᴰ}
use mathlib.Core.List.Permᴰ
use smsc95xx_macos.Base.{
  ℕ, ◌≡◌, ◌∙◌, refl, sym, ap, subst, Option, none, some, List, [], ◌∷◌, ◌++◌, All, if◌then◌else◌,
  if-cases, append-nil, ◌↔◌, Option-cases, inl, inr,
}
use smsc95xx_macos.Probe.Args.{
  str_eq, word, arg_kind, Args, no_args, and_scan, scan_args, Subcommand, subcommand_of, Request,
  checked_subcommand, request_of, parse_args,
}
use smsc95xx_macos.Probe.Args.Render.{
  Item, device_item, mac_item, command_item, render, IsSpelled, and_scan-inv, scan_args-Reads,
  scan_args-render, eq_of_str_eq,
}
use smsc95xx_macos.Probe.Args.Storing.{
  item_of, collect-Permᴰ, collect-items, collect-items_of, All-Permᴰ,
}

one_word :
    (s lit : List ℕ) (k rest : Option Subcommand) (c : Subcommand)
    → arg_kind lit ≡ word
    → (rest ≡ some c → arg_kind s ≡ word)
    → (if str_eq s lit then k else rest) ≡ some c
    → arg_kind s ≡ word
one_word s lit k rest c w next =
    if-cases (λ (o : Option Subcommand). o ≡ some c → arg_kind s ≡ word) (str_eq s lit) k rest
      (λ e _. ap arg_kind (eq_of_str_eq s lit e) ∙ w) (λ _ h. next h)

-- A subcommand is one of the seven words, and none of these reads as an option.
subcommand_of-word : (s : List ℕ) (c : Subcommand) → subcommand_of s ≡ some c → arg_kind s ≡ word
unfolding subcommand_of arg_kind str_eq
subcommand_of-word s c = one_word s _ _ _ c refl (
    one_word s _ _ _ c refl (
      one_word s _ _ _ c refl (
        one_word s _ _ _ c refl (
          one_word s _ _ _ c refl
            (one_word s _ _ _ c refl (one_word s _ _ _ c refl (λ h. cc h)))))))

parse_args-scan :
    (args : List (List ℕ))
    → parse_args args ≡ and_scan (scan_args args no_args) (λ a. request_of a a.subcommand)
unfolding parse_args scan_args request_of
parse_args-scan [] = refl
parse_args-scan (arg ∷ args) = refl

request-inv :
    (a : Args) (o : Option (List ℕ)) (c : Subcommand) (d m : Option (List ℕ))
    → request_of a o ≡ some (c, d, m)
    → (s : List ℕ) × (o ≡ some s)
      × (subcommand_of s ≡ some c)
      × (a.device_selector ≡ d)
      × (a.override_mac ≡ m)
unfolding request_of checked_subcommand
request-inv a none c d m h = cc h
request-inv a (some s) c d m h = elim (Option-cases (subcommand_of s)) [
  | inl e ↦ absurd (none-some (sym (ap (checked_subcommand a) e) ∙ h))
  | inr (k, e) ↦
      let same = request-inj (sym (ap (checked_subcommand a) e) ∙ h) in
      (
        s,
        refl,
        e ∙ ap some (ap (λ (r : Request). r.0) same),
        ap (λ (r : Request). r.1) same,
        ap (λ (r : Request). r.2) same,
      )
]
  where
    none-some : {x : Request} → none ≡ some x → ⊥
    none-some h = cc h

    request-inj : {x y : Request} → some x ≡ some y → x ≡ y
    request-inj h = cc h

All-IsSpelled :
    (d m : Option (List ℕ)) (s : List ℕ)
    → arg_kind s ≡ word
    → All IsSpelled (item_of device_item d (item_of mac_item m (command_item s ∷ [])))
All-IsSpelled none none s w = (w, tt)
All-IsSpelled none (some m) s w = (tt, (w, tt))
All-IsSpelled (some d) none s w = (tt, (w, tt))
All-IsSpelled (some d) (some m) s w = (tt, (tt, (w, tt)))

-- The arguments are accepted exactly when they are, in any order, the subcommand, at most one
-- `--device` with its value and at most one `--mac` with its value, and the subcommand is one of the
-- seven; and these are what the command then works with.
pub parse_args_iff :
    (args : List (List ℕ)) (c : Subcommand) (d m : Option (List ℕ))
    → (parse_args args ≡ some (c, d, m)) ↔ (
        (s : List ℕ) × (is : List Item) × (subcommand_of s ≡ some c)
        × (args ≡ render is)
        × Permᴰ is (item_of device_item d (item_of mac_item m (command_item s ∷ []))))
unfolding parse_args request_of checked_subcommand
parse_args_iff args c d m = (
  (λ h.
      let (a, e, k) = and_scan-inv _ _ (sym (parse_args-scan args) ∙ h) in
      let (s, es, sub, ed, em) = request-inv a a.subcommand c d m k in
      let (is, same, _, stored) = scan_args-Reads args no_args a e in
      (
        s,
        is,
        sub,
        same,
        subst
            (λ (js : List Item).
              Permᴰ js (item_of device_item d (item_of mac_item m (command_item s ∷ []))))
            (append-nil is)
            (subst (Permᴰ (is ++ []))
              (λ t.
                item_of device_item (ed t)
                  (item_of mac_item (em t) (item_of command_item (es t) [])))
              (collect-items is no_args a stored)),
      )),
  (λ (s, is, sub, same, p).
      let b : Args = record { device_selector = d; override_mac = m; subcommand = some s } in
      let spelled =
        All-Permᴰ IsSpelled (Permᴰ.symm p) (All-IsSpelled d m s (subcommand_of-word s c sub)) in
      parse_args-scan args
      ∙ ap (λ xs. and_scan (scan_args xs no_args) (λ a. request_of a a.subcommand)) same
      ∙ ap (λ o. and_scan o (λ a. request_of a a.subcommand))
          (scan_args-render is no_args spelled ∙ collect-Permᴰ no_args p ∙ collect-items_of b)
      ∙ ap (checked_subcommand b) sub),
)
