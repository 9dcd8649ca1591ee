-- ===== src/Usb/Tests.antt =====
-- A device with one configuration, and requests of its host (soc/nxp/usb).
use tamago.Prelude.{
  ℕ, ◌+◌, ◌*◌, ◌^◌, ◌<◌, ◌≡◌, refl, Bool, true, false, Option, none, some, List, [], ◌∷◌, length,
  get_elem?, take, drop, replicate, arith,
}
use tamago.Prelude.Endian.{le_value}
use tamago.Bits.Word.{set_n, set_bit}
use tamago.Reg.{get_n}
use tamago.Usb.{
  DeviceDescriptor, DeviceQualifierDescriptor, ConfigurationDescriptor, InterfaceDescriptor,
  EndpointDescriptor, endpoint_bytes, interface_bytes, interface_fields, class_bytes,
  optional_bytes, association_bytes, string_defaults, string_bytes,
}
use tamago.Usb.Device.{
  Device, configuration, interfaces_bytes, first_association, endpoints_bytes, add_string,
  set_string_descriptor,
}
use tamago.Usb.Reading.{chain, AllDescriptors, IsDescriptor}
use tamago.Usb.Chain.{descriptors, AreInterfaces, IsAssociation, AreEndpoints, configuration-chain}
use tamago.Usb.Strings.{host_units, add_string-reads}
use tamago.Reg.{Registers}
use tamago.Usb.Endpoint.{
  Dtd, is_idle, transfer_dtds, transfer_loop, build_dtd, dtd_buffer, check_dtd,
}
use tamago.Usb.Endpoint.Transfer.{
  Covers, AllDone, descriptors_of, queued_dtds, transfer_dtds-Covers, check_dtd-sent,
}
use tamago.Usb.Setup.{
  Usb, Transfer, send, swap, get_setup, get_descriptor, get_configuration, handle_setup,
}
use tamago.Usb.Setup.Describe.{Offers}
use tamago.Usb.Setup.Answer.{Answered, handle_setup-Answered}
use tamago.Usb.Setup.Requests.{AllWithin, get_descriptor-AllWithin, handle_setup-set_address}

abbrev endpoint : EndpointDescriptor
endpoint = record {
  length = 7;
  descriptor_type = 5;
  endpoint_address = 0x81;
  attributes = 2;
  max_packet_size = 512;
  interval = 0;
  zero_termination = true;
}

abbrev iface : InterfaceDescriptor
iface = record {
  iad = some (record {
    length = 8;
    descriptor_type = 11;
    first_interface = 0;
    interface_count = 1;
    function_class = 2;
    function_sub_class = 0;
    function_protocol = 0;
    function = 0;
  });
  length = 9;
  descriptor_type = 4;
  interface_number = 0;
  alternate_setting = 0;
  num_endpoints = 1;
  interface_class = 2;
  interface_sub_class = 6;
  interface_protocol = 0;
  interface = 0;
  endpoints = endpoint ∷ [];
  class_descriptors = (5 ∷ 0x24 ∷ 0 ∷ 0x10 ∷ 1 ∷ []) ∷ [];
}

abbrev conf : ConfigurationDescriptor
conf = record {
  length = 9;
  descriptor_type = 2;
  total_length = 0;
  num_interfaces = 1;
  configuration_value = 1;
  configuration = 0;
  attributes = 0x80;
  max_power = 250;
  interfaces = iface ∷ [];
}

abbrev descriptor : DeviceDescriptor
descriptor = record {
  length = 18;
  descriptor_type = 1;
  bcd_usb = 0x200;
  device_class = 0;
  device_sub_class = 0;
  device_protocol = 0;
  max_packet_size = 64;
  vendor_id = 0x1209;
  product_id = 0x2702;
  device = 0;
  manufacturer = 0;
  product = 0;
  serial_number = 0;
  num_configurations = 1;
}

abbrev qualifier : DeviceQualifierDescriptor
qualifier = record {
  length = 10;
  descriptor_type = 6;
  bcd_usb = 0x200;
  device_class = 0;
  device_sub_class = 0;
  device_protocol = 0;
  max_packet_size = 64;
  num_configurations = 1;
  reserved = 0;
}

abbrev gadget : Device
gadget = record {
  descriptor = some descriptor;
  qualifier = some qualifier;
  configurations = conf ∷ [];
  strings = [];
  configuration_value = 0;
  alternate_setting = 0;
}

abbrev controller : ℕ → ℕ → ℕ → Usb
controller request value len = record {
  setup = 0x1ac;
  flush = 0x1b4;
  addr = 0x154;
  epctrl = 0x1c0;
  registers = λ j. 0;
  device = gadget;
  handler = none;
  packet = record {
    request_type = 0x80;
    request = request;
    value = value;
    index = 0;
    length = len;
  };
  transfers = [];
  succeeds = λ j. true;
}

iface-AreInterfaces : AreInterfaces (iface ∷ [])
unfolding AreInterfaces IsAssociation AreEndpoints AllDescriptors IsDescriptor
iface-AreInterfaces = (refl, refl, (refl, tt), (refl, tt), tt)

iface_bytes : length (interfaces_bytes 0 (iface ∷ [])).0 ≡ 29
unfolding interfaces_bytes first_association endpoints_bytes endpoint_bytes interface_bytes
    interface_fields class_bytes optional_bytes association_bytes
iface_bytes = refl

configuration-chain_example :
    (buf : List ℕ) × (d' : Device) × (configuration gadget 0 ≡ some (some buf, d'))
    × (chain (length buf) buf ≡ some (take 9 buf ∷ descriptors 0 (iface ∷ [])))
    × (le_value (take 2 (drop 2 buf)) ≡ length buf)
configuration-chain_example =
    configuration-chain gadget 0 conf refl (omega arith) (omega arith) refl iface-AreInterfaces
      (omega (arith, iface_bytes))

add_string-reads_example :
    (rest : List ℕ) × (d' : Device) × (add_string gadget (0x54 ∷ 0x1f600 ∷ []) ≡ (some 0, d'))
    × (get_elem? d'.strings 0 ≡ some ((2 + length rest) ∷ 3 ∷ rest))
    × (host_units rest ≡ 0x54 ∷ 0xd83d ∷ 0xde00 ∷ [])
    × ((i : ℕ) → i < 0 → get_elem? d'.strings i ≡ none)
add_string-reads_example = add_string-reads gadget (0x54 ∷ 0x1f600 ∷ []) (omega arith) (omega arith)

-- The descriptors at 0x9000 and every 64 bytes after it; the endpoint is busy.
abbrev pool : ℕ → ℕ
pool r = 0x9000 + 64 * r

abbrev busy : ℕ → Registers
busy r j = 0x20000

transfer_dtds-Covers_example :
    Covers pool
      (λ r. is_idle (busy r) 0x1b0 0x1b8 1 1)
      0
      0x80000000
      50000
      (transfer_dtds pool busy 0x1b0 0x1b8 1 1 0x80000000 50000)
transfer_dtds-Covers_example =
    transfer_dtds-Covers pool busy 0x1b0 0x1b8 1 1 0x80000000 50000 (omega arith)

abbrev one_dtd : Dtd
one_dtd = record {
  next = 1;
  token = 18 * 2 ^ 16 + 2 ^ 15 + 2 ^ 7;
  buffer = 0x80000000 ∷ 0x80001000 ∷ 0x80002000 ∷ 0x80003000 ∷ 0x80004000 ∷ [];
  buf = 0x80000000;
  size = 18;
}

one_dtd_lem :
    descriptors_of ((one_dtd, 2 ^ 15) ∷ [])
    ≡ queued_dtds (transfer_dtds pool busy 0x1b0 0x1b8 1 1 0x80000000 18)
unfolding transfer_dtds transfer_loop build_dtd dtd_buffer set_n set_bit
one_dtd_lem = refl

check_dtd-sent_example :
    (AllDone ((one_dtd, 2 ^ 15) ∷ []) → check_dtd 1 ((one_dtd, 2 ^ 15) ∷ []) ≡ some 18)
    × ((m : ℕ)
        → check_dtd 1 ((one_dtd, 2 ^ 15) ∷ []) ≡ some m
        → AllDone ((one_dtd, 2 ^ 15) ∷ []) × (m ≡ 18))
check_dtd-sent_example =
    check_dtd-sent pool busy 0x1b0 0x1b8 1 1 0x80000000 18 ((one_dtd, 2 ^ 15) ∷ []) (omega arith)
      one_dtd_lem

get_descriptor-AllWithin_example : AllWithin 8 (controller 6 0x0001 8) (
    get_descriptor
      (controller 6 0x0001 8)
      (record { request_type = 0x80; request = 6; value = 0x0001; index = 0; length = 8 }))
get_descriptor-AllWithin_example =
    get_descriptor-AllWithin (controller 6 0x0001 8)
      (record { request_type = 0x80; request = 6; value = 0x0001; index = 0; length = 8 }) refl

handle_setup-set_address_example :
    (err : Bool) × (hw' : Usb) × (handle_setup (controller 5 42 0) ≡ some (0, err, hw'))
    × (get_n 32 hw'.registers 0x154 25 0x7f ≡ 42)
    × (hw'.transfers ≡ send [] ∷ [])
handle_setup-set_address_example =
    handle_setup-set_address (controller 5 42 0) refl refl (omega arith) (λ e. omega arith)
      (λ e. omega arith) (omega arith)

-- A request for the first configuration.
abbrev asked : Usb
asked = controller 6 0x0200 255

asked-Offers : Offers (get_setup asked).1 (get_setup asked).0
unfolding get_setup swap
asked-Offers = record {
  word = omega arith;
  qualifier = (qualifier, refl);
  configuration = λ r e. omega arith;
}

handle_setup-Answered_example : Answered (get_setup asked).1 (handle_setup asked)
handle_setup-Answered_example = handle_setup-Answered asked refl asked-Offers

-- A request for the second configuration, which is not there, gets neither a transfer nor a stall.
unanswered : Option (Bool × List Transfer × ℕ)
unfolding get_configuration configuration
unanswered =
    elim (get_configuration (controller 6 0x0102 255)
      (record { request_type = 0x80; request = 6; value = 0x0102; index = 0; length = 255 })) [
        | none ↦ none
        | some (err, hw) ↦ some (err, hw.transfers, hw.registers 0x1c0)
      ]

unanswered_lem : unanswered ≡ some (false, [], 0)
unfolding unanswered get_configuration configuration
unanswered_lem = refl

-- A string of 300 bytes gets a descriptor whose length is 46.
long_string : Option ℕ
unfolding set_string_descriptor string_defaults string_bytes
long_string =
    elim (get_elem? (set_string_descriptor gadget (replicate 300 0x41) false).1.strings 0) [
      | none ↦ none
      | some buf ↦ get_elem? buf 0
    ]

long_string_lem : long_string ≡ some 46
unfolding long_string set_string_descriptor string_defaults string_bytes
long_string_lem = refl
