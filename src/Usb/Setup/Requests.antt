-- ===== src/Usb/Setup/Requests.antt =====
-- Single requests of the host (soc/nxp/usb/setup.go): how much of a descriptor it gets, and its address.
use tamago.Prelude.{
  ℕ, ◌+◌, ◌*◌, ◌/◌, ◌%◌, ◌^◌, ◌≤◌, ◌<◌, ◌≡◌, ◌≢◌, ◌⊎◌, refl, ap, ◌∙◌, Bool, true, false, not, ◌||◌,
  Option, none, some, List, [], ◌∷◌, ◌==◌, ltb, if◌then◌else◌, ◌>>=◌, length, set, length-take,
  get_elem?, arith, inl, inr, Bool-cases, bit_or, bit_and,
}
use tamago.Prelude.Endian.{be_bytes, le_value}
use tamago.Prelude.Align.{bit_and_low_mask}
use tamago.Prelude.Disjoint.{bit_or_disjoint, bit_and_complement}
use tamago.Reg
use tamago.Reg.Fields.{get_n-set_n_register, set_other, set_small, write_back_lem}
use tamago.Usb.Device.{Device, configuration}
use tamago.Usb.Setup.{
  SetupData, Usb, Transfer, send, receive, swap, descriptor_bytes, get_setup, transfer, ack, tx,
  trim, get_configuration, get_descriptor, dispatch, standard, set_address, handle_setup,
}

-- Nothing, or one buffer of at most `n` bytes for the host; the status follows exactly when the
-- controller sends the buffer.
unfoldable pub Within : ℕ → (ℕ → Bool) → List Transfer → List Transfer → Type 0
Within n succeeds old new =
    (new ≡ old)
    ⊎ ((buf : List ℕ) × (length buf ≤ n)
        × (new ≡ (if succeeds (length old) then receive ∷ send buf ∷ old else send buf ∷ old)))

-- A request that does not return sends nothing.
unfoldable pub AllWithin : ℕ → Usb → Option (Bool × Usb) → Type 0
unfolding Within
AllWithin n hw none = Unit
AllWithin n hw (some r) = Within n hw.succeeds hw.transfers r.1.transfers

trim-le : (buf : List ℕ) (n : ℕ) → length (trim buf n) ≤ n
unfolding trim
trim-le buf n = elim (Bool-cases (ltb n (length buf))) [
  | inl e ↦ rw e (omega (arith, length-take n buf))
  | inr e ↦ rw e (ground arith)
]

tx-Within :
    (n : ℕ) (hw : Usb) (buf : List ℕ)
    → length buf ≤ n
    → Within n hw.succeeds hw.transfers (tx hw buf).1.transfers
unfolding Within tx transfer
tx-Within n hw buf h = elim (Bool-cases (hw.succeeds (length hw.transfers))) [
  | inl e ↦ rw e (inr (buf, h, refl))
  | inr e ↦ rw e (inr (buf, h, refl))
]

trimmed-AllWithin :
    {A : Type 0} (n : ℕ) (hw : Usb) (o : Option A) (f : A → List ℕ)
    → AllWithin n hw (o >>= λ a. some (tx hw (trim (f a) n)))
unfolding AllWithin
trimmed-AllWithin n hw none f = tt
trimmed-AllWithin n hw (some a) f = tx-Within n hw (trim (f a) n) (trim-le (f a) n)

-- The continuation of get_configuration.
configuration-AllWithin :
    (hw : Usb) (s : SetupData) (r : Option (Option (List ℕ) × Device))
    → configuration hw.device (s.value / 2 ^ 8) ≡ r
    → AllWithin s.length hw (get_configuration hw s)
unfolding AllWithin Within get_configuration
configuration-AllWithin hw s none e = rw e tt
configuration-AllWithin hw s (some (none, d)) e = rw e (inl refl)
configuration-AllWithin hw s (some (some buf, d)) e =
    let kind = bit_and s.value 0xff in
    let out = if kind == 7 then set buf 1 (kind % 256) else buf in
    rw e (tx-Within s.length (record hw { device = d }) (trim out s.length) (trim-le out s.length))

-- A request for a descriptor other than the qualifier, when it returns, either starts no transfer or gives
-- the host one buffer, of at most as many bytes as it asks for; the transfer of the status follows
-- exactly when that of the buffer succeeds.
pub get_descriptor-AllWithin :
    (hw : Usb) (s : SetupData)
    → (bit_and s.value 0xff == 6) ≡ false
    → AllWithin s.length hw (get_descriptor hw s)
unfolding get_descriptor AllWithin Within
get_descriptor-AllWithin hw s h =
    let kind = bit_and s.value 0xff in
    elim (Bool-cases (kind == 1)) [
      | inl e ↦
          let desc = descriptor_bytes hw.device.descriptor in
          rw e (tx-Within s.length hw (trim desc s.length) (trim-le desc s.length))
      | inr e1 ↦ elim (Bool-cases (kind == 2 || kind == 7)) [
        | inl e ↦ rw (e1, e) (configuration-AllWithin hw s _ refl)
        | inr e2 ↦ elim (Bool-cases (kind == 3)) [
          | inl e ↦
              elim (Bool-cases (ltb (length hw.device.strings) ((s.value / 2 ^ 8 + 1) % 2 ^ 16))) [
                | inl out ↦ rw (e1, e2, e, out) (inl refl)
                | inr inside ↦
                    rw (e1, e2, e, inside)
                      (trimmed-AllWithin s.length hw (get_elem? hw.device.strings (s.value / 2 ^ 8))
                        (λ str. str))
              ]
          | inr e3 ↦ rw (e1, e2, e3, h) (inl refl)
        ]
      ]
    ]

-- The controller's byte order, swapped twice.
address_lem :
    (a : ℕ)
    → a < 2 ^ 16
    → (let v = le_value (be_bytes 2 a) in bit_or (bit_and (v * 2 ^ 8 % 2 ^ 16) 0xff00) (v / 2 ^ 8))
      ≡ a
address_lem a h =
    let v = le_value (be_bytes 2 a) in
    let high = v * 2 ^ 8 % 2 ^ 16 in
    let ev : v ≡ a / 256 % 256 + 256 * (a % 256) = omega arith in
    let low : bit_and high 0xff ≡ 0 = omega (arith, bit_and_low_mask 8 high) in
    let mask : bit_and high 0xff00 ≡ high =
      omega (arith, bit_and_complement 16 high 0xff (omega arith) (omega arith)) in
    rw mask (bit_or_disjoint 8 high (v / 2 ^ 8) (omega arith) (omega arith) ∙ omega arith)

standard-address : (hw : Usb) (s : SetupData) → s.request ≡ 5 → standard hw s ≡ set_address hw s
unfolding standard
standard-address hw s e =
    let e0 : (s.request == 0) ≡ false = ground arith in
    let e1 : (s.request == 1) ≡ false = ground arith in
    let e5 : (s.request == 5) ≡ true = ground arith in rw (e0, e1, e5) refl

set_address_lem :
    (hw : Usb) (s : SetupData) (a : ℕ)
    → a < 2 ^ 16
    → s.value ≡ le_value (be_bytes 2 a)
    → set_address hw s
      ≡ some (
        0,
        not (hw.succeeds (length hw.transfers)),
        record hw {
          registers = Reg.set_n 32 (Reg.set 32 hw.registers hw.addr 24) hw.addr 25 0x7f a;
          transfers = send [] ∷ hw.transfers;
        },
      )
unfolding set_address ack transfer
set_address_lem hw s a h e =
    let q : bit_or (bit_and (s.value * 2 ^ 8 % 2 ^ 16) 0xff00) (s.value / 2 ^ 8) ≡ a =
      rw e (address_lem a h) in
    rw q refl

-- Without a handler of the application: after SET_ADDRESS with an address of seven bits in the packet, as
-- the host sent it, the controller has that address, and the status is under way: the two swaps of
-- the handler undo each other. The address register is none of those that getSetup writes, and holds 32
-- bits.
pub handle_setup-set_address :
    (hw : Usb)
    → hw.handler ≡ none
    → hw.packet.request ≡ 5
    → hw.packet.value < 2 ^ 7
    → hw.addr ≢ hw.setup
    → hw.addr ≢ hw.flush
    → hw.registers hw.addr < 2 ^ 32
    → (err : Bool) × (hw' : Usb) × (handle_setup hw ≡ some (0, err, hw'))
      × (Reg.get_n 32 hw'.registers hw.addr 25 0x7f ≡ hw.packet.value)
      × (hw'.transfers ≡ send [] ∷ hw.transfers)
unfolding handle_setup get_setup dispatch standard set_address ack transfer swap
handle_setup-set_address hw eh er small ns nf room =
    let g1 = Reg.write_back hw.registers hw.setup in
    let g2 = Reg.set 32 g1 hw.flush 16 in
    let g3 = Reg.set 32 g2 hw.flush 0 in
    let g4 = Reg.set 32 g3 hw.addr 24 in
    let g5 = Reg.set_n 32 g4 hw.addr 25 0x7f hw.packet.value in
    let kept : g3 hw.addr ≡ hw.registers hw.addr =
      set_other 32 g2 hw.flush 0 hw.addr nf
      ∙ set_other 32 g1 hw.flush 16 hw.addr nf
      ∙ write_back_lem hw.registers hw.setup hw.addr in
    let fits : g4 hw.addr < 2 ^ 32 = set_small 32 g3 hw.addr 24 (omega arith) in
    let field =
      get_n-set_n_register 32 g4 hw.addr (hw.addr + 1) 25 7 hw.packet.value 0 0 (omega arith) fits
        (omega arith) (omega arith) (inl (omega arith)) (λ e. omega arith) in
    (
      not (hw.succeeds (length hw.transfers)),
      record hw { registers = g5; transfers = send [] ∷ hw.transfers },
      ap (λ f. dispatch f (get_setup hw).1 (get_setup hw).0) eh
          ∙ standard-address (get_setup hw).1 (get_setup hw).0 er
          ∙ set_address_lem (get_setup hw).1 (get_setup hw).0 hw.packet.value (omega arith) refl,
      field.0 ∙ omega arith,
      refl,
    )
