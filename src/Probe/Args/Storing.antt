-- ===== src/Probe/Args/Storing.antt =====
-- Storing items: the order is of no account, and what is stored is what there was.
use mathlib.Core.List.{Permᴰ}
use mathlib.Core.List.Permᴰ
use smsc95xx_macos.Base.{
  ℕ, ◌≡◌, ◌∙◌, refl, sym, subst, Option, none, some, List, [], ◌∷◌, ◌++◌, All, some-inj, arith,
}
use smsc95xx_macos.Probe.Args.{Args, no_args, set_device, set_mac_arg, set_subcommand, and_scan}
use smsc95xx_macos.Probe.Args.Render.{
  Item, device_item, mac_item, command_item, store, collect, and_scan-inv,
}

-- Two items are stored in either order.
store-swap :
    (i j : Item) (a : Args) (k : Args → Option Args)
    → and_scan (store i a) (λ b. and_scan (store j b) k)
      ≡ and_scan (store j a) (λ b. and_scan (store i b) k)
unfolding set_device set_mac_arg set_subcommand
store-swap (device_item v) (device_item w) a k = ground arith
store-swap (device_item v) (mac_item w) a k = ground arith
store-swap (device_item v) (command_item w) a k = ground arith
store-swap (mac_item v) (device_item w) a k = ground arith
store-swap (mac_item v) (mac_item w) a k = ground arith
store-swap (mac_item v) (command_item w) a k = ground arith
store-swap (command_item v) (device_item w) a k = ground arith
store-swap (command_item v) (mac_item w) a k = ground arith
store-swap (command_item v) (command_item w) a k = ground arith

pub collect-Permᴰ : {is js : List Item} (a : Args) → Permᴰ is js → collect is a ≡ collect js a
collect-Permᴰ a Permᴰ.nil = refl
collect-Permᴰ a (Permᴰ.cons {a = i} {l₁ = is} {l₂ = js} e p) =
    (λ t. and_scan (store (e t) a) (λ b. collect-Permᴰ b p t))
collect-Permᴰ a (Permᴰ.swap {a = i} {b = j} {l = is} e f) =
    store-swap i j a (λ b. collect is b)
    ∙ (λ t. and_scan (store (f t) a) (λ b. and_scan (store (e t) b) (λ c. collect is c)))
collect-Permᴰ a (Permᴰ.trans p q) = collect-Permᴰ a p ∙ collect-Permᴰ a q

abbrev pub item_of : (List ℕ → Item) → Option (List ℕ) → List Item → List Item
item_of make none is = is
item_of make (some v) is = make v ∷ is

-- What is stored, as items.
abbrev pub items_of : Args → List Item
items_of a =
    item_of device_item a.device_selector
      (item_of mac_item a.override_mac (item_of command_item a.subcommand []))

same_items : (is : List Item) → Permᴰ is is
same_items is = Permᴰ.refl is

-- The item is put behind those of `front`.
behind :
    {a b : Args} (i : Item) (front back : List Item)
    → some a ≡ some b
    → items_of a ≡ front ++ (i ∷ back)
    → Permᴰ (i ∷ (front ++ back)) (items_of b)
behind i front back h e =
    subst (λ (c : Args). Permᴰ (i ∷ (front ++ back)) (items_of c)) (some-inj h)
      (subst (Permᴰ (i ∷ (front ++ back))) (sym e) (Permᴰ.symm (Permᴰ.middle i front back)))

store-Permᴰ :
    (i : Item) (d m s : Option (List ℕ)) (b : Args)
    → store i (record { device_selector = d; override_mac = m; subcommand = s }) ≡ some b
    → Permᴰ
        (i ∷ items_of (record { device_selector = d; override_mac = m; subcommand = s }))
        (items_of b)
unfolding set_device set_mac_arg set_subcommand
store-Permᴰ (device_item v) none m s b h =
    behind (device_item v) [] (item_of mac_item m (item_of command_item s [])) h refl
store-Permᴰ (device_item v) (some w) m s b h = cc h
store-Permᴰ (mac_item v) none none s b h = behind (mac_item v) [] (item_of command_item s []) h refl
store-Permᴰ (mac_item v) (some w) none s b h =
    behind (mac_item v) (device_item w ∷ []) (item_of command_item s []) h refl
store-Permᴰ (mac_item v) d (some w) s b h = cc h
store-Permᴰ (command_item v) none none none b h = behind (command_item v) [] [] h refl
store-Permᴰ (command_item v) none (some m) none b h =
    behind (command_item v) (mac_item m ∷ []) [] h refl
store-Permᴰ (command_item v) (some d) none none b h =
    behind (command_item v) (device_item d ∷ []) [] h refl
store-Permᴰ (command_item v) (some d) (some m) none b h =
    behind (command_item v) (device_item d ∷ mac_item m ∷ []) [] h refl
store-Permᴰ (command_item v) d m (some w) b h = cc h

pub collect-items :
    (is : List Item) (a b : Args) → collect is a ≡ some b → Permᴰ (is ++ items_of a) (items_of b)
collect-items [] a b h =
    subst (λ (c : Args). Permᴰ (items_of a) (items_of c)) (some-inj h) (same_items (items_of a))
collect-items (i ∷ is) a b h =
    let (a1, e, k) = and_scan-inv (store i a) (λ c. collect is c) h in
    Permᴰ.trans (Permᴰ.symm (Permᴰ.middle i is (items_of a))) (
      Permᴰ.trans
        (Permᴰ.append_left is (store-Permᴰ i a.device_selector a.override_mac a.subcommand a1 e))
        (collect-items is a1 b k))

pub collect-items_of : (a : Args) → collect (items_of a) no_args ≡ some a
unfolding set_device set_mac_arg set_subcommand
collect-items_of a = own a.device_selector a.override_mac a.subcommand
  where
    own :
        (d m s : Option (List ℕ))
        → collect
            (items_of (record { device_selector = d; override_mac = m; subcommand = s }))
            no_args
          ≡ some (record { device_selector = d; override_mac = m; subcommand = s })
    own none none none = refl
    own none none (some s) = refl
    own none (some m) none = refl
    own none (some m) (some s) = refl
    own (some d) none none = refl
    own (some d) none (some s) = refl
    own (some d) (some m) none = refl
    own (some d) (some m) (some s) = refl

pub All-Permᴰ : (P : Item → Type 0) {is js : List Item} → Permᴰ is js → All P is → All P js
All-Permᴰ P Permᴰ.nil h = h
All-Permᴰ P (Permᴰ.cons e p) (h, hs) = (subst P e h, All-Permᴰ P p hs)
All-Permᴰ P (Permᴰ.swap e f) (h, (k, hs)) = (subst P f k, (subst P e h, hs))
All-Permᴰ P (Permᴰ.trans p q) h = All-Permᴰ P q (All-Permᴰ P p h)
