-- ===== src/Usb/Strings.antt =====
-- The string descriptors of a device (AddString in soc/nxp/usb/descriptor.go) as the host reads them.
use tamago.Prelude.{
  ℕ, zero, suc, ◌+◌, ◌*◌, ◌-◌, ◌/◌, ◌%◌, ◌^◌, ◌≤◌, ◌<◌, ◌≡◌, refl, ◌∙◌, false, some, List, [], ◌∷◌,
  ◌++◌, ltb, leb, length, get_elem?, length-append, arith, inl, inr, Bool-cases, bit_and,
}
use tamago.Prelude.Align.{bit_and_low_mask}
use tamago.Usb.{string_defaults, string_bytes}
use tamago.Usb.Device.{
  Device, set_string_descriptor, unit_bytes, utf16_rune, utf16_encode, add_string,
}

-- The 16-bit units of the bytes after the header.
abbrev pub host_units : List ℕ → List ℕ
host_units [] = []
host_units (b ∷ []) = []
host_units (b ∷ c ∷ bs) = (b + 256 * c) ∷ host_units bs

unfoldable pub AllUnits : List ℕ → Type 0
AllUnits [] = Unit
AllUnits (u ∷ us) = (u < 2 ^ 16) × AllUnits us

append-AllUnits : (us vs : List ℕ) → AllUnits us → AllUnits vs → AllUnits (us ++ vs)
unfolding AllUnits
append-AllUnits [] vs a b = b
append-AllUnits (u ∷ us) vs a b = (a.0, append-AllUnits us vs a.1 b)

rune-AllUnits : (r : ℕ) → AllUnits (utf16_rune r)
unfolding AllUnits
rune-AllUnits r = elim (Bool-cases (ltb r 0xd800)) [
  | inl e ↦ rw e (ground arith, tt)
  | inr e1 ↦ elim (Bool-cases (ltb r 0xe000)) [
    | inl e ↦ rw (e1, e) (omega arith, tt)
    | inr e2 ↦ elim (Bool-cases (ltb r 0x10000)) [
      | inl e ↦ rw (e1, e2, e) (ground arith, tt)
      | inr e3 ↦ elim (Bool-cases (leb r 0x10ffff)) [
        | inl e ↦ rw (e1, e2, e3, e) (ground arith, (ground arith, tt))
        | inr e ↦ rw (e1, e2, e3, e) (omega arith, tt)
      ]
    ]
  ]
]

encode-AllUnits : (rs : List ℕ) → AllUnits (utf16_encode rs)
unfolding AllUnits
encode-AllUnits [] = tt
encode-AllUnits (r ∷ rs) =
    append-AllUnits (utf16_rune r) (utf16_encode rs) (rune-AllUnits r) (encode-AllUnits rs)

host_units-unit_bytes : (us : List ℕ) → AllUnits us → host_units (unit_bytes us) ≡ us
unfolding AllUnits unit_bytes
host_units-unit_bytes [] a = refl
host_units-unit_bytes (u ∷ us) (h, a) =
    let whole : bit_and u 0xff % 256 + 256 * (u / 2 ^ 8 % 256) ≡ u =
      omega (arith, bit_and_low_mask 8 u) in
    rw (whole, host_units-unit_bytes us a) refl

length-unit_bytes : (us : List ℕ) → length (unit_bytes us) ≡ 2 * length us
unfolding unit_bytes
length-unit_bytes [] = refl
length-unit_bytes (u ∷ us) = omega (arith, length-unit_bytes us)

get_last : (xs : List (List ℕ)) (x : List ℕ) → get_elem? (xs ++ (x ∷ [])) (length xs) ≡ some x
get_last [] x = refl
get_last (y ∷ xs) x = get_last xs x

get_earlier :
    (xs : List (List ℕ)) (x : List ℕ) (i : ℕ)
    → i < length xs
    → get_elem? (xs ++ (x ∷ [])) i ≡ get_elem? xs i
get_earlier [] x i h = absurd (omega arith)
get_earlier (y ∷ xs) x zero h = refl
get_earlier (y ∷ xs) x (suc i) h = get_earlier xs x i (omega arith)

-- A string of at most 126 units of UTF-16, on a device with less than 256 strings: AddString returns the
-- next index, and there stands a descriptor of type 3 whose first byte is its length and whose units are
-- those of the string; the strings before it are as they were.
pub add_string-reads :
    (d : Device) (runes : List ℕ)
    → length (utf16_encode runes) ≤ 126
    → length d.strings < 256
    → (rest : List ℕ) × (d' : Device) × (add_string d runes ≡ (some (length d.strings), d'))
      × (get_elem? d'.strings (length d.strings) ≡ some ((2 + length rest) ∷ 3 ∷ rest))
      × (host_units rest ≡ utf16_encode runes)
      × ((i : ℕ) → i < length d.strings → get_elem? d'.strings i ≡ get_elem? d.strings i)
unfolding add_string set_string_descriptor string_defaults string_bytes
add_string-reads d runes h few =
    let rest = unit_bytes (utf16_encode runes) in
    let n = length rest in
    let small : n ≤ 252 = omega (arith, length-unit_bytes (utf16_encode runes)) in
    let len : (2 + n % 256) % 256 ≡ 2 + n = omega arith in
    let within : ltb 255 (2 + n) ≡ false = ground arith in
    let buf = (2 + n) % 256 ∷ 3 ∷ rest in
    let index : (length (d.strings ++ (buf ∷ [])) - 1) % 256 ≡ length d.strings =
      omega (arith, length-append d.strings (buf ∷ [])) in
    let first : (2 + n) % 256 ≡ 2 + n = omega arith in
    (
      rest,
      record d { strings = d.strings ++ (buf ∷ []) },
      rw (len, within, index) refl,
      get_last d.strings buf ∙ rw first refl,
      host_units-unit_bytes (utf16_encode runes) (encode-AllUnits runes),
      (λ i p. get_earlier d.strings buf i p),
    )
