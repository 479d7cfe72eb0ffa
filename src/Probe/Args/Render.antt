-- ===== src/Probe/Args/Render.antt =====
-- The arguments as items in any order: what `scan_args` accepts, and what it makes of it.
use smsc95xx_macos.Base.{
  ℕ, ◌≡◌, ◌∙◌, refl, sym, ap, subst, true, Option, none, some, List, [], ◌∷◌, All, if-cases, ◌==◌,
  get_or, arith,
}
use smsc95xx_macos.Probe.Args.{
  str_eq, opt_device, opt_mac, ArgKind, device_option, mac_option, unknown_option, word, arg_kind,
  Args, set_device, set_mac_arg, set_subcommand, and_scan, scan_args,
}

-- An option with its value, or the subcommand.
pub data Item : Type 0 where
  device_item mac_item command_item : List ℕ → Item

-- The arguments of an item, before the rest of them.
abbrev pub render_item : Item → List (List ℕ) → List (List ℕ)
render_item (device_item v) rest = opt_device ∷ v ∷ rest
render_item (mac_item v) rest = opt_mac ∷ v ∷ rest
render_item (command_item s) rest = s ∷ rest

abbrev pub render : List Item → List (List ℕ)
render [] = []
render (i ∷ is) = render_item i (render is)

-- A subcommand does not read as an option.
abbrev pub IsSpelled : Item → Type 0
IsSpelled (command_item s) = arg_kind s ≡ word
IsSpelled _ = Unit {0}

abbrev pub store : Item → Args → Option Args
store (device_item v) a = set_device v a
store (mac_item v) a = set_mac_arg v a
store (command_item s) a = set_subcommand s a

abbrev pub collect : List Item → Args → Option Args
collect [] a = some a
collect (i ∷ is) a = and_scan (store i a) (λ b. collect is b)

pub eq_of_str_eq : (a b : List ℕ) → str_eq a b ≡ true → a ≡ b
unfolding str_eq
eq_of_str_eq [] [] h = refl
eq_of_str_eq [] (b ∷ bs) h = cc
eq_of_str_eq (a ∷ as1) [] h = cc
eq_of_str_eq (a ∷ as1) (b ∷ bs) h = ground (arith, eq_of_str_eq as1 bs)

-- What the kind tells of the argument.
abbrev OfKind : List ℕ → ArgKind → Type 0
OfKind arg device_option = arg ≡ opt_device
OfKind arg mac_option = arg ≡ opt_mac
OfKind arg unknown_option = Unit {0}
OfKind arg word = arg_kind arg ≡ word

kind-OfKind : (arg : List ℕ) → OfKind arg (arg_kind arg)
unfolding arg_kind
kind-OfKind arg =
    if-cases (λ (k : ArgKind). (arg_kind arg ≡ k) → OfKind arg k) (str_eq arg opt_device) _ _
      (λ e _. eq_of_str_eq arg opt_device e)
      (λ _.
        if-cases (λ (k : ArgKind). (arg_kind arg ≡ k) → OfKind arg k) (str_eq arg opt_mac) _ _
          (λ e _. eq_of_str_eq arg opt_mac e)
          (λ _.
            if-cases (λ (k : ArgKind). (arg_kind arg ≡ k) → OfKind arg k) (get_or arg 0 0 == 0x2D) _
              _ (λ _ _. tt) (λ _ k. k)))
      refl

-- `xs` are items, and storing these takes `a` to `b`.
abbrev pub Reads : List (List ℕ) → Args → Args → Type 0
Reads xs a b = (is : List Item) × (xs ≡ render is) × All IsSpelled is × (collect is a ≡ some b)

pub and_scan-inv :
    {A : Type 0} (o : Option Args) (k : Args → Option A) {b : A}
    → and_scan o k ≡ some b
    → (a : Args) × (o ≡ some a) × (k a ≡ some b)
and_scan-inv none k h = cc
and_scan-inv (some a) k h = (a, refl, h)

-- An item in front, if the rest reads whatever the item stores.
read_item :
    (i : Item) (xs : List (List ℕ)) (a b : Args)
    → IsSpelled i
    → ((a1 : Args) → scan_args xs a1 ≡ some b → Reads xs a1 b)
    → and_scan (store i a) (λ c. scan_args xs c) ≡ some b
    → Reads (render_item i xs) a b
read_item i xs a b good reads h =
    let (a1, e, k) = and_scan-inv (store i a) (λ c. scan_args xs c) h in
    let (is, same, spelled, c) = reads a1 k in
    (
      i ∷ is,
      ap (render_item i) same,
      (good, spelled),
      ap (λ o. and_scan o (λ c. collect is c)) e ∙ c,
    )

read_last :
    (k : ArgKind) (arg : List ℕ) (a b : Args)
    → OfKind arg k
    → (elim k as (λ _. Option Args) [ word ↦ set_subcommand arg a | _ ↦ none ]) ≡ some b
    → Reads (arg ∷ []) a b
read_last word arg a b good h =
    (command_item arg ∷ [], refl, (good, tt), ap (λ o. and_scan o some) h)
read_last _ arg a b good h = cc

read_next :
    (k : ArgKind) (arg v : List ℕ) (rest : List (List ℕ)) (a b : Args)
    → OfKind arg k
    → ((a1 : Args) → scan_args rest a1 ≡ some b → Reads rest a1 b)
    → ((a1 : Args) → scan_args (v ∷ rest) a1 ≡ some b → Reads (v ∷ rest) a1 b)
    → (elim k as (λ _. Option Args) [
      | device_option ↦ and_scan (set_device v a) (λ b. scan_args rest b)
      | mac_option ↦ and_scan (set_mac_arg v a) (λ b. scan_args rest b)
      | unknown_option ↦ none
      | word ↦ and_scan (set_subcommand arg a) (λ b. scan_args (v ∷ rest) b)
    ])
      ≡ some b
    → Reads (arg ∷ v ∷ rest) a b
read_next device_option arg v rest a b good after_value next h =
    subst (λ x. Reads (x ∷ v ∷ rest) a b) (sym good)
      (read_item (device_item v) rest a b tt after_value h)
read_next mac_option arg v rest a b good after_value next h =
    subst (λ x. Reads (x ∷ v ∷ rest) a b) (sym good)
      (read_item (mac_item v) rest a b tt after_value h)
read_next unknown_option arg v rest a b good after_value next h = cc
read_next word arg v rest a b good after_value next h =
    read_item (command_item arg) (v ∷ rest) a b good next h

-- What is accepted reads as items.
pub scan_args-Reads : (xs : List (List ℕ)) (a b : Args) → scan_args xs a ≡ some b → Reads xs a b
unfolding scan_args
scan_args-Reads [] a b h = ([], refl, tt, h)
scan_args-Reads (arg ∷ []) a b h = read_last (arg_kind arg) arg a b (kind-OfKind arg) h
scan_args-Reads (arg ∷ v ∷ rest) a b h =
    read_next (arg_kind arg) arg v rest a b (kind-OfKind arg) (λ a1 e. scan_args-Reads rest a1 b e)
      (λ a1 e. scan_args-Reads (v ∷ rest) a1 b e) h

and_scan-some : (o : Option Args) → and_scan o some ≡ o
and_scan-some none = refl
and_scan-some (some a) = refl

scan-word :
    (s : List ℕ) (xs : List (List ℕ)) (a : Args)
    → arg_kind s ≡ word
    → scan_args (s ∷ xs) a ≡ and_scan (set_subcommand s a) (λ b. scan_args xs b)
unfolding scan_args
scan-word s [] a e = rw (e, scan_args) (sym (and_scan-some (set_subcommand s a)))
scan-word s (v ∷ xs) a e = rw (e, scan_args)

-- Items are accepted as they are stored.
pub scan_args-render :
    (is : List Item) (a : Args) → All IsSpelled is → scan_args (render is) a ≡ collect is a
unfolding scan_args arg_kind str_eq
scan_args-render [] a good = refl
scan_args-render (device_item v ∷ is) a (_, good) =
    λ i. and_scan (set_device v a) (λ b. scan_args-render is b good i)
scan_args-render (mac_item v ∷ is) a (_, good) =
    λ i. and_scan (set_mac_arg v a) (λ b. scan_args-render is b good i)
scan_args-render (command_item s ∷ is) a (word_s, good) =
    scan-word s (render is) a word_s
    ∙ (λ i. and_scan (set_subcommand s a) (λ b. scan_args-render is b good i))
