-- ===== src/Usb/Device.antt =====
-- The device of soc/nxp/usb/descriptor.go: its strings, and the buffer of a configuration. `none` in the
-- place of a result is an error of Go; `none` alone is a panic.
use tamago.Prelude.{
  ℕ, ◌+◌, ◌-◌, ◌/◌, ◌%◌, ◌^◌, Bool, true, false, ◌&&◌, Option, none, some, List, [], ◌∷◌, ◌++◌,
  bit_and, ◌==◌, ltb, leb, if◌then◌else◌, length, set, get_elem?, ◌>>=◌,
}
use tamago.Prelude.Endian.{le_bytes}
use tamago.Usb.{
  DeviceDescriptor, DeviceQualifierDescriptor, ConfigurationDescriptor, InterfaceDescriptor,
  InterfaceAssociationDescriptor, EndpointDescriptor, StringDescriptor, string_defaults,
  string_bytes, interface_bytes, endpoint_bytes, configuration_bytes,
}

pub record Device : Type 0 where
  pub descriptor : Option DeviceDescriptor
  pub qualifier : Option DeviceQualifierDescriptor
  pub configurations : List ConfigurationDescriptor
  pub strings : List (List ℕ)
  pub configuration_value : ℕ
  pub alternate_setting : ℕ

-- setStringDescriptor: the index, and the device.
unfoldable pub set_string_descriptor : Device → List ℕ → Bool → Option ℕ × Device
unfolding string_defaults string_bytes
set_string_descriptor d s first =
    let desc = string_defaults (record { length = 0; descriptor_type = 0 }) in
    let desc' : StringDescriptor = record desc { length = (desc.length + length s % 256) % 256 } in
    if ltb 255 desc'.length
    then (none, d)
    else (let buf = string_bytes desc' ++ s in
        let strings' =
          if first && leb 1 (length d.strings)
          then set d.strings 0 buf
          else d.strings ++ (buf ∷ []) in
        (some ((length strings' - 1) % 256), record d { strings = strings' }))

-- The loop of SetLanguageCodes.
unfoldable pub code_bytes : List ℕ → List ℕ
code_bytes [] = []
code_bytes (c ∷ cs) = le_bytes 2 c ++ code_bytes cs

-- SetLanguageCodes: whether there is no error, and the device.
unfoldable pub set_language_codes : Device → List ℕ → Bool × Device
unfolding set_string_descriptor code_bytes
set_language_codes d codes =
    if ltb 1 (length codes)
    then (false, d)
    else (true, (set_string_descriptor d (code_bytes codes) true).1)

-- `utf16.Encode` of one rune.
abbrev pub utf16_rune : ℕ → List ℕ
utf16_rune r =
    if ltb r 0xd800
    then r ∷ []
    else if ltb r 0xe000
    then 0xfffd ∷ []
    else if ltb r 0x10000
    then r ∷ []
    else if leb r 0x10ffff
    then (0xd800 + (r - 0x10000) / 2 ^ 10) ∷ (0xdc00 + (r - 0x10000) % 2 ^ 10) ∷ []
    else 0xfffd ∷ []

abbrev pub utf16_encode : List ℕ → List ℕ
utf16_encode [] = []
utf16_encode (r ∷ rs) = utf16_rune r ++ utf16_encode rs

-- The loop of AddString.
unfoldable pub unit_bytes : List ℕ → List ℕ
unit_bytes [] = []
unit_bytes (u ∷ us) = bit_and u 0xff % 256 ∷ u / 2 ^ 8 % 256 ∷ unit_bytes us

-- AddString of a string of these runes.
unfoldable pub add_string : Device → List ℕ → Option ℕ × Device
unfolding set_string_descriptor unit_bytes
add_string d runes = set_string_descriptor d (unit_bytes (utf16_encode runes)) false

-- AddConfiguration: whether there is no error, and the device.
unfoldable pub add_configuration : Device → ConfigurationDescriptor → Bool × Device
add_configuration d conf = elim d.descriptor [
  | none ↦ (false, record d { configurations = d.configurations ++ (conf ∷ []) })
  | some desc ↦ (
    true,
    record d {
      configurations = d.configurations ++ (conf ∷ []);
      descriptor = some (record desc { num_configurations = (desc.num_configurations + 1) % 256 });
    },
  )
]

-- `iface.IAD.FirstInterface = uint8(i)`, where it is not set.
unfoldable pub first_association :
    ℕ → Option InterfaceAssociationDescriptor → Option InterfaceAssociationDescriptor
first_association i none = none
first_association i (some a) =
    if a.first_interface == 0 then some (record a { first_interface = i % 256 }) else some a

-- The loop over the endpoints.
unfoldable pub endpoints_bytes : List EndpointDescriptor → List ℕ
unfolding endpoint_bytes
endpoints_bytes [] = []
endpoints_bytes (e ∷ es) = endpoint_bytes e ++ endpoints_bytes es

-- The loop over the interfaces, from number `i` on: the bytes, and the interfaces.
unfoldable pub interfaces_bytes : ℕ → List InterfaceDescriptor → List ℕ × List InterfaceDescriptor
unfolding first_association endpoints_bytes interface_bytes
interfaces_bytes i [] = ([], [])
interfaces_bytes i (f ∷ fs) =
    let f' : InterfaceDescriptor = record f { iad = first_association i f.iad } in
    let rest = interfaces_bytes (i + 1) fs in
    (interface_bytes f' ++ (endpoints_bytes f'.endpoints ++ rest.0), f' ∷ rest.1)

-- Configuration: the buffer, and the device.
unfoldable pub configuration : Device → ℕ → Option (Option (List ℕ) × Device)
unfolding interfaces_bytes configuration_bytes
configuration d index =
    if ltb (length d.configurations) ((index + 1) % 2 ^ 16) then some (none, d) else do
      conf ← get_elem? d.configurations index
      let loop = interfaces_bytes 0 conf.interfaces
      let conf' : ConfigurationDescriptor = record conf {
        interfaces = loop.1;
        total_length = (conf.length + length loop.0) % 2 ^ 16;
      }
      some (
        some (configuration_bytes conf' ++ loop.0),
        record d { configurations = set d.configurations index conf' },
      )
