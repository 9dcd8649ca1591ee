-- ===== src/Usb/Setup/Answer.antt =====
-- What the handler of setup packets does for the host (soc/nxp/usb/setup.go).
use tamago.Prelude.{
  arith, ℕ, ◌*◌, ◌/◌, ◌%◌, ◌^◌, ◌<◌, ◌≡◌, refl, ap, ◌∙◌, Bool, true, false, Option, none, some, [],
  ◌∷◌, ◌==◌, if◌then◌else◌, length, inl, inr, Bool-cases, bit_or, bit_and,
}
use tamago.Reg.{Registers}
use tamago.Reg
use tamago.Usb.Endpoint.{reset}
use tamago.Usb.Setup.{
  SetupData, Usb, get_setup, ack, tx, stalled, with_conf, clear_feature, set_address,
  set_configuration, unsupported, standard, dispatch, handle_setup,
}
use tamago.Usb.Setup.Describe.{
  IsAnswered, tx-transfers, ack-transfers, Offers, get_descriptor-Described,
}

-- A result of a request, and that it answers.
abbrev pub Answered : Usb → Option (ℕ × Bool × Usb) → Type 0
Answered hw r = (t : ℕ × Bool × Usb) × (r ≡ some t) × IsAnswered hw t.2

transfer-Answered :
    (hw : Usb) (conf : ℕ) (r : Bool × Usb)
    → length hw.transfers < length r.1.transfers
    → Answered hw (with_conf conf r)
unfolding IsAnswered
transfer-Answered hw conf r p = ((conf, r.0, r.1), refl, inl p)

stalled-Answered : (hw : Usb) (err : Bool) → Answered hw (some (0, err, stalled hw 1))
unfolding IsAnswered
stalled-Answered hw err = ((0, err, stalled hw 1), refl, inr (inl refl))

clear_feature-Answered : (hw : Usb) (s : SetupData) → Answered hw (clear_feature hw s)
unfolding clear_feature
clear_feature-Answered hw s =
    let hw1 : Usb = record hw {
      registers = reset hw.epctrl hw.registers (bit_and s.index 0xf) (bit_and s.index 0x80 / 0x80);
    } in
    elim (Bool-cases (s.value == 0)) [
      | inl e ↦ rw e (transfer-Answered hw 0 (ack hw1) (ack-transfers hw1))
      | inr e ↦ rw e (stalled-Answered hw false)
    ]

set_configuration-Answered : (hw : Usb) (s : SetupData) → Answered hw (set_configuration hw s)
unfolding set_configuration
set_configuration-Answered hw s =
    let conf = s.value / 2 ^ 8 % 256 in
    let hw1 : Usb = record hw { device = record hw.device { configuration_value = conf } } in
    elim (Bool-cases (hw.device.configuration_value == conf)) [
      | inl e ↦ rw e (transfer-Answered hw 0 (ack hw) (ack-transfers hw))
      | inr e ↦ rw e (transfer-Answered hw conf (ack hw1) (ack-transfers hw1))
    ]

unsupported-Answered : (hw : Usb) (s : SetupData) → Answered hw (unsupported hw s)
unfolding unsupported IsAnswered
unsupported-Answered hw s = elim (Bool-cases (bit_and (s.request_type / 2 ^ 7) 1 == 0)) [
  | inl e ↦ rw e ((0, true, stalled (stalled hw 0) 1), refl, inr (inr refl))
  | inr e ↦ rw e (stalled-Answered hw true)
]

set_address-Answered : (hw : Usb) (s : SetupData) → Answered hw (set_address hw s)
unfolding set_address
set_address-Answered hw s =
    let addr = bit_or (bit_and (s.value * 2 ^ 8 % 2 ^ 16) 0xff00) (s.value / 2 ^ 8) in
    let hw1 : Usb = record hw {
      registers = Reg.set_n 32 (Reg.set 32 hw.registers hw.addr 24) hw.addr 25 0x7f addr;
    } in
    transfer-Answered hw 0 (ack hw1) (ack-transfers hw1)

-- The requests after the descriptors in the switch.
later_requests : Usb → SetupData → Option (ℕ × Bool × Usb)
later_requests hw s =
    if s.request == 8
    then with_conf 0 (tx hw (hw.device.configuration_value ∷ []))
    else if s.request == 9
    then set_configuration hw s
    else if s.request == 10
    then with_conf 0 (tx hw (hw.device.alternate_setting ∷ []))
    else if s.request == 11
    then with_conf 0 (
        ack (record hw { device = record hw.device { alternate_setting = s.value / 2 ^ 8 % 256 } }))
    else if s.request == 0x43
    then with_conf 0 (ack hw)
    else unsupported hw s

later_requests-Answered : (hw : Usb) (s : SetupData) → Answered hw (later_requests hw s)
unfolding later_requests
later_requests-Answered hw s =
    let hw1 : Usb = record hw {
      device = record hw.device { alternate_setting = s.value / 2 ^ 8 % 256 };
    } in
    elim (Bool-cases (s.request == 8)) [
      | inl e ↦ rw e (
          transfer-Answered hw 0 (tx hw (hw.device.configuration_value ∷ []))
            (tx-transfers hw (hw.device.configuration_value ∷ [])))
      | inr e8 ↦ elim (Bool-cases (s.request == 9)) [
        | inl e ↦ rw (e8, e) (set_configuration-Answered hw s)
        | inr e9 ↦ elim (Bool-cases (s.request == 10)) [
          | inl e ↦
              rw (e8, e9, e)
                (transfer-Answered hw 0 (tx hw (hw.device.alternate_setting ∷ []))
                  (tx-transfers hw (hw.device.alternate_setting ∷ [])))
          | inr e10 ↦ elim (Bool-cases (s.request == 11)) [
            | inl e ↦ rw (e8, e9, e10, e) (transfer-Answered hw 0 (ack hw1) (ack-transfers hw1))
            | inr e11 ↦ elim (Bool-cases (s.request == 0x43)) [
              | inl e ↦
                  rw (e8, e9, e10, e11, e) (transfer-Answered hw 0 (ack hw) (ack-transfers hw))
              | inr e ↦ rw (e8, e9, e10, e11, e) (unsupported-Answered hw s)
            ]
          ]
        ]
      ]
    ]

-- The whole switch.
standard-Answered : (hw : Usb) (s : SetupData) → Offers hw s → Answered hw (standard hw s)
unfolding standard later_requests
standard-Answered hw s o = elim (Bool-cases (s.request == 0)) [
  | inl e ↦ rw e (transfer-Answered hw 0 (tx hw (0 ∷ 0 ∷ [])) (tx-transfers hw (0 ∷ 0 ∷ [])))
  | inr e0 ↦ elim (Bool-cases (s.request == 1)) [
    | inl e ↦ rw (e0, e) (clear_feature-Answered hw s)
    | inr e1 ↦ elim (Bool-cases (s.request == 5)) [
      | inl e ↦ rw (e0, e1, e) (set_address-Answered hw s)
      | inr e5 ↦ elim (Bool-cases (s.request == 6)) [
        | inl e ↦
            let (r, er, a) = get_descriptor-Described hw s (ground arith) o in
            rw (e0, e1, e5, e, er) ((0, r.0, r.1), refl, a)
        | inr e6 ↦ rw (e0, e1, e5, e6) (later_requests-Answered hw s)
      ]
    ]
  ]
]

-- Without a handler of the application, and on a device with a qualifier, every setup packet whose value has
-- 16 bits is answered, unless it is a GET_DESCRIPTOR for a configuration that is not there: handleSetup
-- returns, and a transfer is under way or endpoint 0 stalls towards the host (and from it, for an
-- unknown request in that direction). The registers are compared with those that getSetup leaves.
pub handle_setup-Answered :
    (hw : Usb)
    → hw.handler ≡ none
    → Offers (get_setup hw).1 (get_setup hw).0
    → Answered (get_setup hw).1 (handle_setup hw)
unfolding handle_setup dispatch get_setup
handle_setup-Answered hw e o =
    let (t, q, a) = standard-Answered (get_setup hw).1 (get_setup hw).0 o in
    let same : handle_setup hw ≡ standard (get_setup hw).1 (get_setup hw).0 =
      ap (λ f. dispatch f (get_setup hw).1 (get_setup hw).0) e in
    (t, same ∙ q, a)
