-- ===== src/Usb/Setup/Describe.antt =====
-- Requests for descriptors are answered (getDescriptor in soc/nxp/usb/setup.go).
use tamago.Prelude.{
  ℕ, ◌+◌, ◌/◌, ◌%◌, ◌^◌, ◌<◌, ◌≡◌, ◌⊎◌, refl, ◌∙◌, Bool, true, false, ◌||◌, Option, some, List,
  ◌++◌, ◌==◌, ltb, if◌then◌else◌, length, set, get_elem?-lt, arith, inl, inr, Bool-cases, bit_and,
}
use tamago.Usb.Endpoint.{stall}
use tamago.Usb.{
  ConfigurationDescriptor, configuration_bytes, DeviceQualifierDescriptor, qualifier_bytes,
}
use tamago.Usb.Device.{Device, interfaces_bytes, configuration}
use tamago.Usb.Setup.{
  SetupData, Usb, transfer, ack, tx, trim, stalled, descriptor_bytes, get_configuration,
  get_descriptor,
}

-- A request is answered when a transfer is under way or the endpoint stalls towards the host.
unfoldable pub IsAnswered : Usb → Usb → Type 0
IsAnswered hw hw' =
    (length hw.transfers < length hw'.transfers)
    ⊎ (hw'.registers ≡ stall hw.epctrl hw.registers 0 1)
    ⊎ (hw'.registers ≡ stall hw.epctrl (stall hw.epctrl hw.registers 0 0) 0 1)

pub tx-transfers : (hw : Usb) (buf : List ℕ) → length hw.transfers < length (tx hw buf).1.transfers
unfolding tx transfer
tx-transfers hw buf = elim (Bool-cases (hw.succeeds (length hw.transfers))) [
  | inl e ↦ rw e (omega arith)
  | inr e ↦ rw e (omega arith)
]

pub ack-transfers : (hw : Usb) → length hw.transfers < length (ack hw).1.transfers
unfolding ack transfer
ack-transfers hw = omega arith

-- A request for a configuration.
abbrev pub for_configuration : SetupData → Bool
for_configuration s = bit_and s.value 0xff == 2 || bit_and s.value 0xff == 7

-- What the device has for the request: a qualifier, and for GET_DESCRIPTOR the configuration asked for.
pub record Offers (hw : Usb) (s : SetupData) : Type 0 where
  pub word : s.value < 2 ^ 16
  pub qualifier : (d : DeviceQualifierDescriptor) × (hw.device.qualifier ≡ some d)
  pub configuration :
      s.request ≡ 6 → for_configuration s ≡ true → s.value / 2 ^ 8 < length hw.device.configurations

-- Likewise for get_descriptor.
abbrev Described : Usb → Option (Bool × Usb) → Type 0
Described hw r = (t : Bool × Usb) × (r ≡ some t) × IsAnswered hw t.1

tx-Described : (hw : Usb) (buf : List ℕ) → Described hw (some (tx hw buf))
unfolding IsAnswered
tx-Described hw buf = (tx hw buf, refl, inl (tx-transfers hw buf))

stalled-Described : (hw : Usb) → Described hw (some (true, stalled hw 1))
unfolding IsAnswered
stalled-Described hw = ((true, stalled hw 1), refl, inr (inl refl))

equal-Described :
    (hw : Usb) (r r' : Option (Bool × Usb)) → r ≡ r' → Described hw r' → Described hw r
equal-Described hw r r' e (t, q, a) = (t, e ∙ q, a)

-- A configuration that is there is turned into a buffer.
configuration-returns :
    (d : Device) (index : ℕ)
    → index < length d.configurations
    → index + 1 < 2 ^ 16
    → (buf : List ℕ) × (d' : Device) × (configuration d index ≡ some (some buf, d'))
unfolding configuration
configuration-returns d index i small =
    let (conf, e) = get_elem?-lt d.configurations index i in
    let inside : ltb (length d.configurations) ((index + 1) % 2 ^ 16) ≡ false = ground arith in
    let loop = interfaces_bytes 0 conf.interfaces in
    let conf' : ConfigurationDescriptor = record conf {
      interfaces = loop.1;
      total_length = (conf.length + length loop.0) % 2 ^ 16;
    } in
    (
      configuration_bytes conf' ++ loop.0,
      record d { configurations = set d.configurations index conf' },
      rw (inside, e) refl,
    )

get_configuration-Described :
    (hw : Usb) (s : SetupData)
    → s.value < 2 ^ 16
    → s.value / 2 ^ 8 < length hw.device.configurations
    → Described hw (get_configuration hw s)
unfolding get_configuration IsAnswered
get_configuration-Described hw s v i =
    let (buf, d', e) = configuration-returns hw.device (s.value / 2 ^ 8) i (omega arith) in
    let kind = bit_and s.value 0xff in
    let hw1 : Usb = record hw { device = d' } in
    let out = trim (if kind == 7 then set buf 1 (kind % 256) else buf) s.length in
    rw e ((false, (tx hw1 out).1), refl, inl (tx-transfers hw1 out))

pub get_descriptor-Described :
    (hw : Usb) (s : SetupData) → s.request ≡ 6 → Offers hw s → Described hw (get_descriptor hw s)
unfolding get_descriptor
get_descriptor-Described hw s request o =
    let kind = bit_and s.value 0xff in
    let (qual, eq) = o.qualifier in
    elim (Bool-cases (kind == 1)) [
      | inl e ↦ rw e (tx-Described hw (trim (descriptor_bytes hw.device.descriptor) s.length))
      | inr e1 ↦ elim (Bool-cases (for_configuration s)) [
        | inl e ↦ rw (e1, e) (get_configuration-Described hw s o.word (o.configuration request e))
        | inr e2 ↦ elim (Bool-cases (kind == 3)) [
          | inl e ↦
              elim (Bool-cases (ltb (length hw.device.strings) ((s.value / 2 ^ 8 + 1) % 2 ^ 16))) [
                | inl out ↦ rw (e1, e2, e, out) (stalled-Described hw)
                | inr inside ↦
                    let (str, es) =
                      get_elem?-lt hw.device.strings (s.value / 2 ^ 8) (ground (arith, o.word)) in
                    equal-Described hw _ (some (tx hw (trim str s.length)))
                      (rw (e1, e2, e, inside, es) refl) (tx-Described hw (trim str s.length))
              ]
          | inr e3 ↦ elim (Bool-cases (kind == 6)) [
            | inl e ↦
                equal-Described hw _ (some (tx hw (qualifier_bytes qual)))
                  (rw (e1, e2, e3, e, eq) refl) (tx-Described hw (qualifier_bytes qual))
            | inr e ↦ rw (e1, e2, e3, e) (stalled-Described hw)
          ]
        ]
      ]
    ]
