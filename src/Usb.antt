-- ===== src/Usb.antt =====
-- The standard descriptors of USB device mode (soc/nxp/usb/descriptor.go) with their defaults and their
-- bytes. A pointer to a descriptor is the descriptor: each belongs to the one that lists it.
pub mod Reading
pub mod Chain
pub mod Device
pub mod Endpoint
pub mod Setup
pub mod Strings
mod Tests
use tamago.Prelude.{
  ℕ, ◌+◌, ◌/◌, ◌%◌, Bool, true, Option, none, some, List, [], ◌∷◌, ◌++◌, bit_and, ◌==◌, ltb, ◌-◌,
  if◌then◌else◌,
}
use tamago.Prelude.Endian.{le_bytes}

pub record DeviceDescriptor : Type 0 where
  pub length : ℕ
  pub descriptor_type : ℕ
  pub bcd_usb : ℕ
  pub device_class : ℕ
  pub device_sub_class : ℕ
  pub device_protocol : ℕ
  pub max_packet_size : ℕ
  pub vendor_id : ℕ
  pub product_id : ℕ
  pub device : ℕ
  pub manufacturer : ℕ
  pub product : ℕ
  pub serial_number : ℕ
  pub num_configurations : ℕ

-- SetDefaults; likewise those below.
unfoldable pub device_defaults : DeviceDescriptor → DeviceDescriptor
device_defaults d = record d {
  length = 18;
  descriptor_type = 1;
  bcd_usb = 0x0200;
  max_packet_size = 64;
  vendor_id = 0x1209;
  product_id = 0x2702;
}

-- Bytes; likewise those below.
unfoldable pub device_bytes : DeviceDescriptor → List ℕ
device_bytes d =
    le_bytes 1 d.length
    ++ (le_bytes 1 d.descriptor_type
        ++ (le_bytes 2 d.bcd_usb
            ++ (le_bytes 1 d.device_class
                ++ (le_bytes 1 d.device_sub_class
                    ++ (le_bytes 1 d.device_protocol
                        ++ (le_bytes 1 d.max_packet_size
                            ++ (le_bytes 2 d.vendor_id
                                ++ (le_bytes 2 d.product_id
                                    ++ (le_bytes 2 d.device
                                        ++ (le_bytes 1 d.manufacturer
                                            ++ (le_bytes 1 d.product
                                                ++ (le_bytes 1 d.serial_number
                                                    ++ le_bytes 1 d.num_configurations))))))))))))

pub record InterfaceAssociationDescriptor : Type 0 where
  pub length : ℕ
  pub descriptor_type : ℕ
  pub first_interface : ℕ
  pub interface_count : ℕ
  pub function_class : ℕ
  pub function_sub_class : ℕ
  pub function_protocol : ℕ
  pub function : ℕ

unfoldable pub association_defaults :
    InterfaceAssociationDescriptor → InterfaceAssociationDescriptor
association_defaults d = record d { length = 8; descriptor_type = 11 }

unfoldable pub association_bytes : InterfaceAssociationDescriptor → List ℕ
association_bytes d =
    le_bytes 1 d.length
    ++ (le_bytes 1 d.descriptor_type
        ++ (le_bytes 1 d.first_interface
            ++ (le_bytes 1 d.interface_count
                ++ (le_bytes 1 d.function_class
                    ++ (le_bytes 1 d.function_sub_class
                        ++ (le_bytes 1 d.function_protocol ++ le_bytes 1 d.function))))))

-- The function of the endpoint, which the driver calls, is no part of the descriptor's bytes.
pub record EndpointDescriptor : Type 0 where
  pub length : ℕ
  pub descriptor_type : ℕ
  pub endpoint_address : ℕ
  pub attributes : ℕ
  pub max_packet_size : ℕ
  pub interval : ℕ
  pub zero_termination : Bool

unfoldable pub endpoint_defaults : EndpointDescriptor → EndpointDescriptor
endpoint_defaults d = record d {
  length = 7;
  descriptor_type = 5;
  endpoint_address = 0x81;
  max_packet_size = 512;
  zero_termination = true;
}

unfoldable pub endpoint_number : EndpointDescriptor → ℕ
endpoint_number d = bit_and d.endpoint_address 0b1111

unfoldable pub endpoint_direction : EndpointDescriptor → ℕ
endpoint_direction d = bit_and d.endpoint_address 0b10000000 / 0b10000000

unfoldable pub transfer_type : EndpointDescriptor → ℕ
transfer_type d = bit_and d.attributes 0b11

unfoldable pub endpoint_bytes : EndpointDescriptor → List ℕ
endpoint_bytes d =
    le_bytes 1 d.length
    ++ (le_bytes 1 d.descriptor_type
        ++ (le_bytes 1 d.endpoint_address
            ++ (le_bytes 1 d.attributes
                ++ (le_bytes 2 d.max_packet_size ++ le_bytes 1 d.interval))))

pub record InterfaceDescriptor : Type 0 where
  pub iad : Option InterfaceAssociationDescriptor
  pub length : ℕ
  pub descriptor_type : ℕ
  pub interface_number : ℕ
  pub alternate_setting : ℕ
  pub num_endpoints : ℕ
  pub interface_class : ℕ
  pub interface_sub_class : ℕ
  pub interface_protocol : ℕ
  pub interface : ℕ
  pub endpoints : List EndpointDescriptor
  pub class_descriptors : List (List ℕ)

unfoldable pub interface_defaults : InterfaceDescriptor → InterfaceDescriptor
interface_defaults d = record d { length = 9; descriptor_type = 4; num_endpoints = 1 }

-- The nine bytes of the interface itself.
unfoldable pub interface_fields : InterfaceDescriptor → List ℕ
interface_fields d =
    le_bytes 1 d.length
    ++ (le_bytes 1 d.descriptor_type
        ++ (le_bytes 1 d.interface_number
            ++ (le_bytes 1 d.alternate_setting
                ++ (le_bytes 1 d.num_endpoints
                    ++ (le_bytes 1 d.interface_class
                        ++ (le_bytes 1 d.interface_sub_class
                            ++ (le_bytes 1 d.interface_protocol ++ le_bytes 1 d.interface)))))))

-- The loop over the class descriptors.
unfoldable pub class_bytes : List (List ℕ) → List ℕ
class_bytes [] = []
class_bytes (c ∷ cs) = c ++ class_bytes cs

-- `if d.IAD != nil`
unfoldable pub optional_bytes : Option InterfaceAssociationDescriptor → List ℕ
unfolding association_bytes
optional_bytes none = []
optional_bytes (some a) = association_bytes a

unfoldable pub interface_bytes : InterfaceDescriptor → List ℕ
unfolding interface_fields class_bytes optional_bytes
interface_bytes d = optional_bytes d.iad ++ (interface_fields d ++ class_bytes d.class_descriptors)

pub record ConfigurationDescriptor : Type 0 where
  pub length : ℕ
  pub descriptor_type : ℕ
  pub total_length : ℕ
  pub num_interfaces : ℕ
  pub configuration_value : ℕ
  pub configuration : ℕ
  pub attributes : ℕ
  pub max_power : ℕ
  pub interfaces : List InterfaceDescriptor

unfoldable pub configuration_defaults : ConfigurationDescriptor → ConfigurationDescriptor
configuration_defaults d = record d {
  length = 9;
  descriptor_type = 2;
  configuration_value = 1;
  attributes = 0x80;
  max_power = 250;
}

-- The number that AddInterface gives to the interface.
unfoldable pub numbered : ConfigurationDescriptor → InterfaceDescriptor → InterfaceDescriptor
numbered d iface =
    if iface.alternate_setting == 0
    then record iface { interface_number = d.num_interfaces }
    else if ltb 0 d.num_interfaces
    then record iface { interface_number = d.num_interfaces - 1 }
    else iface

-- AddInterface: the configuration, whose list ends with the interface.
unfoldable pub add_interface :
    ConfigurationDescriptor → InterfaceDescriptor → ConfigurationDescriptor
unfolding numbered
add_interface d iface = record d {
  num_interfaces =
      if iface.alternate_setting == 0 then (d.num_interfaces + 1) % 256 else d.num_interfaces;
  interfaces = d.interfaces ++ (numbered d iface ∷ []);
}

unfoldable pub configuration_bytes : ConfigurationDescriptor → List ℕ
configuration_bytes d =
    le_bytes 1 d.length
    ++ (le_bytes 1 d.descriptor_type
        ++ (le_bytes 2 d.total_length
            ++ (le_bytes 1 d.num_interfaces
                ++ (le_bytes 1 d.configuration_value
                    ++ (le_bytes 1 d.configuration
                        ++ (le_bytes 1 d.attributes ++ le_bytes 1 d.max_power))))))

pub record StringDescriptor : Type 0 where
  pub length : ℕ
  pub descriptor_type : ℕ

unfoldable pub string_defaults : StringDescriptor → StringDescriptor
string_defaults d = record { length = 2; descriptor_type = 3 }

unfoldable pub string_bytes : StringDescriptor → List ℕ
string_bytes d = le_bytes 1 d.length ++ le_bytes 1 d.descriptor_type

pub record DeviceQualifierDescriptor : Type 0 where
  pub length : ℕ
  pub descriptor_type : ℕ
  pub bcd_usb : ℕ
  pub device_class : ℕ
  pub device_sub_class : ℕ
  pub device_protocol : ℕ
  pub max_packet_size : ℕ
  pub num_configurations : ℕ
  pub reserved : ℕ

unfoldable pub qualifier_defaults : DeviceQualifierDescriptor → DeviceQualifierDescriptor
qualifier_defaults d = record d {
  length = 10;
  descriptor_type = 6;
  bcd_usb = 0x0200;
  max_packet_size = 64;
  num_configurations = 1;
}

unfoldable pub qualifier_bytes : DeviceQualifierDescriptor → List ℕ
qualifier_bytes d =
    le_bytes 1 d.length
    ++ (le_bytes 1 d.descriptor_type
        ++ (le_bytes 2 d.bcd_usb
            ++ (le_bytes 1 d.device_class
                ++ (le_bytes 1 d.device_sub_class
                    ++ (le_bytes 1 d.device_protocol
                        ++ (le_bytes 1 d.max_packet_size
                            ++ (le_bytes 1 d.num_configurations ++ le_bytes 1 d.reserved)))))))
