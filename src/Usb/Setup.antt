-- ===== src/Usb/Setup.antt =====
-- The handler of setup packets (soc/nxp/usb/setup.go). The transfers on endpoint 0 are a log, and whether
-- each one succeeds is what the controller does: a function of its place in the log. `none` is a panic.
pub mod Describe
pub mod Answer
pub mod Requests
use tamago.Prelude.{
  ℕ, zero, suc, ◌+◌, ◌*◌, ◌-◌, ◌/◌, ◌%◌, ◌^◌, Bool, true, false, not, ◌&&◌, ◌||◌, Option, none,
  some, List, [], ◌∷◌, ◌++◌, bit_and, bit_or, ◌==◌, ltb, leb, if◌then◌else◌, length, take, set,
  get_elem?, ◌>>=◌,
}
use tamago.Prelude.Endian.{le_value, be_bytes}
use tamago.Reg.{Registers}
use tamago.Reg
use tamago.Usb.{DeviceDescriptor, device_bytes, qualifier_bytes}
use tamago.Usb.Device.{Device, configuration}
use tamago.Usb.Endpoint.{direction_in, direction_out, stall, reset}

pub record SetupData : Type 0 where
  pub request_type : ℕ
  pub request : ℕ
  pub value : ℕ
  pub index : ℕ
  pub length : ℕ

unfoldable pub swap : SetupData → SetupData
swap s = record s { value = le_value (be_bytes 2 s.value) }

-- What an optional handler of the application returns: a buffer, whether to acknowledge, whether it is
-- done, whether there is an error.
abbrev pub SetupFunction : Type 0
SetupFunction = SetupData → List ℕ × Bool × Bool × Bool

-- A transfer on endpoint 0: a buffer for the host, or its status.
pub data Transfer : Type 0 where
  send : List ℕ → Transfer
  receive : Transfer

pub record Usb : Type 0 where
  -- The addresses of the registers.
  pub setup : ℕ
  pub flush : ℕ
  pub addr : ℕ
  pub epctrl : ℕ
  pub registers : Registers
  pub device : Device
  pub handler : Option SetupFunction
  -- The setup data in the queue head, which the controller wrote.
  pub packet : SetupData
  -- The transfers so far, the last one first, and whether each succeeds.
  pub transfers : List Transfer
  pub succeeds : ℕ → Bool

unfoldable pub get_setup : Usb → SetupData × Usb
unfolding swap
get_setup hw =
    let g1 = Reg.write_back hw.registers hw.setup in
    let g2 = Reg.set 32 g1 hw.flush 16 in
    let g3 = Reg.set 32 g2 hw.flush 0 in (swap hw.packet, record hw { registers = g3 })

-- `transfer`, as far as the host sees it: whether there is an error, and the state.
unfoldable pub transfer : Usb → Transfer → Bool × Usb
transfer hw t =
    (not (hw.succeeds (length hw.transfers)), record hw { transfers = t ∷ hw.transfers })

unfoldable pub ack : Usb → Bool × Usb
unfolding transfer
ack hw = transfer hw (send [])

unfoldable pub tx : Usb → List ℕ → Bool × Usb
unfolding transfer
tx hw buf = let r = transfer hw (send buf) in if r.0 then r else transfer r.1 receive

abbrev pub stalled : Usb → ℕ → Usb
stalled hw dir = record hw { registers = stall hw.epctrl hw.registers 0 dir }

unfoldable pub trim : List ℕ → ℕ → List ℕ
trim buf length' = if ltb length' (length buf) then take length' buf else buf

-- The case of CONFIGURATION and OTHER_SPEED_CONFIGURATION. The errors of Configuration and of tx go to a
-- variable of the inner block.
unfoldable pub get_configuration : Usb → SetupData → Option (Bool × Usb)
unfolding tx trim
get_configuration hw s = do
  (buf, device') ← configuration hw.device (s.value / 2 ^ 8)
  let hw' : Usb = record hw { device = device' }
  elim buf [
    | none ↦ some (false, hw')
    | some conf ↦
        let kind = bit_and s.value 0xff in
        some
          (false, (tx hw' (trim (if kind == 7 then set conf 1 (kind % 256) else conf) s.length)).1)
  ]

-- `hw.Device.Descriptor.Bytes()`: without a descriptor binary.Write fails, and nothing is written.
abbrev pub descriptor_bytes : Option DeviceDescriptor → List ℕ
descriptor_bytes none = []
descriptor_bytes (some d) = device_bytes d

unfoldable pub get_descriptor : Usb → SetupData → Option (Bool × Usb)
unfolding get_configuration tx trim
get_descriptor hw s =
    let kind = bit_and s.value 0xff in
    let index = s.value / 2 ^ 8 in
    if kind == 1
    then some (tx hw (trim (descriptor_bytes hw.device.descriptor) s.length))
    else if kind == 2 || kind == 7
    then get_configuration hw s
    else if kind == 3
    then (if ltb (length hw.device.strings) ((index + 1) % 2 ^ 16)
        then some (true, stalled hw direction_in)
        else (do str ← get_elem? hw.device.strings index; some (tx hw (trim str s.length))))
    else if kind == 6
    then (do desc ← hw.device.qualifier; some (tx hw (qualifier_bytes desc)))
    else some (true, stalled hw direction_in)

-- A result: the configuration number, whether there is an error, and the state.
abbrev pub with_conf : ℕ → Bool × Usb → Option (ℕ × Bool × Usb)
with_conf conf r = some (conf, r.0, r.1)

unfoldable pub clear_feature : Usb → SetupData → Option (ℕ × Bool × Usb)
unfolding ack
clear_feature hw s =
    if s.value == 0
    then with_conf 0 (
        ack (record hw {
          registers =
              reset hw.epctrl hw.registers (bit_and s.index 0xf) (bit_and s.index 0x80 / 0x80);
        }))
    else some (0, false, stalled hw direction_in)

unfoldable pub set_address : Usb → SetupData → Option (ℕ × Bool × Usb)
unfolding ack
set_address hw s =
    let addr = bit_or (bit_and (s.value * 2 ^ 8 % 2 ^ 16) 0xff00) (s.value / 2 ^ 8) in
    let g = Reg.set 32 hw.registers hw.addr 24 in
    with_conf 0 (ack (record hw { registers = Reg.set_n 32 g hw.addr 25 0x7f addr }))

unfoldable pub set_configuration : Usb → SetupData → Option (ℕ × Bool × Usb)
unfolding ack
set_configuration hw s =
    let conf = s.value / 2 ^ 8 % 256 in
    if not (hw.device.configuration_value == conf)
    then with_conf conf
        (ack (record hw { device = record hw.device { configuration_value = conf } }))
    else with_conf 0 (ack hw)

unfoldable pub unsupported : Usb → SetupData → Option (ℕ × Bool × Usb)
unsupported hw s =
    let hw' =
      if bit_and (s.request_type / 2 ^ 7) 1 == direction_out
      then stalled hw direction_out
      else hw in
    some (0, true, stalled hw' direction_in)

-- The switch of handleSetup.
unfoldable pub standard : Usb → SetupData → Option (ℕ × Bool × Usb)
unfolding ack tx clear_feature set_address set_configuration get_descriptor unsupported
standard hw s =
    if s.request == 0
    then with_conf 0 (tx hw (0 ∷ 0 ∷ []))
    else if s.request == 1
    then clear_feature hw s
    else if s.request == 5
    then set_address hw s
    else if s.request == 6
    then (do r ← get_descriptor hw s; with_conf 0 r)
    else if s.request == 8
    then with_conf 0 (tx hw (hw.device.configuration_value ∷ []))
    else if s.request == 9
    then set_configuration hw s
    else if s.request == 10
    then with_conf 0 (tx hw (hw.device.alternate_setting ∷ []))
    else if s.request == 11
    then with_conf 0 (
        ack (record hw { device = record hw.device { alternate_setting = s.value / 2 ^ 8 % 256 } }))
    else if s.request == 0x43
    then with_conf 0 (ack hw)
    else unsupported hw s

-- The answer that the application's handler asks for: whether there is an error, and the state.
unfoldable pub application_answer : Usb → List ℕ → Bool → Bool × Usb
unfolding ack tx
application_answer hw buf acknowledge =
    if not (length buf == 0) then tx hw buf else if acknowledge then ack hw else (false, hw)

-- handleSetup, once the setup data is read: the application's handler goes first.
unfoldable pub dispatch : Option SetupFunction → Usb → SetupData → Option (ℕ × Bool × Usb)
unfolding standard application_answer
dispatch none hw s = standard hw s
dispatch (some f) hw s =
    let (buf, acknowledge, done, err) = f s in
    if err
    then some (0, true, stalled hw direction_in)
    else (let r = application_answer hw buf acknowledge in
        if done || r.0 then some (0, r.0, r.1) else standard r.1 s)

unfoldable pub handle_setup : Usb → Option (ℕ × Bool × Usb)
unfolding get_setup dispatch
handle_setup hw = let start = get_setup hw in dispatch start.1.handler start.1 start.0
