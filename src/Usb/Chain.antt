-- ===== src/Usb/Chain.antt =====
-- The buffer of a configuration (Configuration in soc/nxp/usb/descriptor.go) as the host reads it: a chain
-- of descriptors, each with its length in front.
use tamago.Prelude.{
  ℕ, ◌+◌, ◌%◌, ◌^◌, ◌<◌, ◌≡◌, refl, sym, ap, ◌∙◌, false, Option, none, some, List, [], ◌∷◌, ◌++◌,
  ◌==◌, ltb, length, take, drop, set, get_elem?, arith, inl, inr, Bool-cases,
}
use tamago.Prelude.Endian.{le_value}
use mathlib.Core.List.{append_assoc, append-nil}
use tamago.Usb.{
  ConfigurationDescriptor, InterfaceDescriptor, InterfaceAssociationDescriptor, EndpointDescriptor,
  association_bytes, interface_fields, class_bytes, optional_bytes, interface_bytes, endpoint_bytes,
  configuration_bytes,
}
use tamago.Usb.Device.{Device, first_association, endpoints_bytes, interfaces_bytes, configuration}
use tamago.Usb.Reading.{
  chain, concat, IsDescriptor, AllDescriptors, chain-concat, concat-append, append-AllDescriptors,
  length-concat,
}

-- The descriptors of an interface, in their order.
unfoldable pub association_descriptors : Option InterfaceAssociationDescriptor → List (List ℕ)
association_descriptors none = []
association_descriptors (some a) = association_bytes a ∷ []

unfoldable pub endpoint_descriptors : List EndpointDescriptor → List (List ℕ)
endpoint_descriptors [] = []
endpoint_descriptors (e ∷ es) = endpoint_bytes e ∷ endpoint_descriptors es

unfoldable pub interface_descriptors : InterfaceDescriptor → List (List ℕ)
unfolding association_descriptors endpoint_descriptors
interface_descriptors f =
    association_descriptors f.iad
    ++ (interface_fields f ∷ (f.class_descriptors ++ endpoint_descriptors f.endpoints))

-- Those of all interfaces, from number `i` on.
unfoldable pub descriptors : ℕ → List InterfaceDescriptor → List (List ℕ)
unfolding interface_descriptors
descriptors i [] = []
descriptors i (f ∷ fs) =
    interface_descriptors (record f { iad = first_association i f.iad }) ++ descriptors (i + 1) fs

concat-endpoints :
    (es : List EndpointDescriptor) → concat (endpoint_descriptors es) ≡ endpoints_bytes es
unfolding endpoint_descriptors endpoints_bytes
concat-endpoints [] = refl
concat-endpoints (e ∷ es) = rw (concat-endpoints es) refl

concat-classes : (cs : List (List ℕ)) → concat cs ≡ class_bytes cs
unfolding class_bytes
concat-classes [] = refl
concat-classes (c ∷ cs) = rw (concat-classes cs) refl

concat-association :
    (a : Option InterfaceAssociationDescriptor)
    → concat (association_descriptors a) ≡ optional_bytes a
unfolding association_descriptors optional_bytes
concat-association none = refl
concat-association (some a) = append-nil (association_bytes a)

concat-interface :
    (f : InterfaceDescriptor)
    → concat (interface_descriptors f) ≡ interface_bytes f ++ endpoints_bytes f.endpoints
unfolding interface_descriptors interface_bytes
concat-interface f =
    concat-append (association_descriptors f.iad)
      (interface_fields f ∷ (f.class_descriptors ++ endpoint_descriptors f.endpoints))
    ∙ rw
        (
          concat-association f.iad,
          concat-append f.class_descriptors (endpoint_descriptors f.endpoints),
          concat-classes f.class_descriptors,
          concat-endpoints f.endpoints,
        )
        (ap (λ t. optional_bytes f.iad ++ t)
            (sym (
              append_assoc (interface_fields f) (class_bytes f.class_descriptors)
                (endpoints_bytes f.endpoints)))
          ∙ sym (
              append_assoc (optional_bytes f.iad)
                (interface_fields f ++ class_bytes f.class_descriptors)
                (endpoints_bytes f.endpoints)))

-- The bytes are those of the descriptors, one after the other.
concat-descriptors :
    (i : ℕ) (fs : List InterfaceDescriptor) → concat (descriptors i fs) ≡ (interfaces_bytes i fs).0
unfolding descriptors interfaces_bytes
concat-descriptors i [] = refl
concat-descriptors i (f ∷ fs) =
    let f' : InterfaceDescriptor = record f { iad = first_association i f.iad } in
    concat-append (interface_descriptors f') (descriptors (i + 1) fs)
    ∙ rw (concat-interface f', concat-descriptors (i + 1) fs)
        (append_assoc (interface_bytes f') (endpoints_bytes f'.endpoints)
          (interfaces_bytes (i + 1) fs).0)

-- The lengths that SetDefaults gives.
unfoldable pub IsAssociation : Option InterfaceAssociationDescriptor → Type 0
IsAssociation none = Unit
IsAssociation (some a) = a.length ≡ 8

unfoldable pub AreEndpoints : List EndpointDescriptor → Type 0
AreEndpoints [] = Unit
AreEndpoints (e ∷ es) = (e.length ≡ 7) × AreEndpoints es

unfoldable pub AreInterfaces : List InterfaceDescriptor → Type 0
AreInterfaces [] = Unit
AreInterfaces (f ∷ fs) =
    (f.length ≡ 9)
    × IsAssociation f.iad
    × AllDescriptors f.class_descriptors
    × AreEndpoints f.endpoints
    × AreInterfaces fs

endpoints-AllDescriptors :
    (es : List EndpointDescriptor) → AreEndpoints es → AllDescriptors (endpoint_descriptors es)
unfolding AreEndpoints AllDescriptors IsDescriptor endpoint_descriptors endpoint_bytes
endpoints-AllDescriptors [] h = tt
endpoints-AllDescriptors (e ∷ es) h = (omega (arith, h.0), endpoints-AllDescriptors es h.1)

association-AllDescriptors :
    (i : ℕ) (a : Option InterfaceAssociationDescriptor)
    → IsAssociation a
    → AllDescriptors (association_descriptors (first_association i a))
unfolding IsAssociation AllDescriptors IsDescriptor association_descriptors association_bytes
    first_association
association-AllDescriptors i none h = tt
association-AllDescriptors i (some a) h = elim (Bool-cases (a.first_interface == 0)) [
  | inl e ↦ rw e (omega (arith, h), tt)
  | inr e ↦ rw e (omega (arith, h), tt)
]

descriptors-AllDescriptors :
    (i : ℕ) (fs : List InterfaceDescriptor) → AreInterfaces fs → AllDescriptors (descriptors i fs)
unfolding AreInterfaces AllDescriptors IsDescriptor descriptors interface_descriptors
    interface_fields
descriptors-AllDescriptors i [] h = tt
descriptors-AllDescriptors i (f ∷ fs) (l, a, c, e, h) =
    let f' : InterfaceDescriptor = record f { iad = first_association i f.iad } in
    append-AllDescriptors (interface_descriptors f') (descriptors (i + 1) fs)
      (append-AllDescriptors (association_descriptors f'.iad)
        (interface_fields f' ∷ (f.class_descriptors ++ endpoint_descriptors f.endpoints))
        (association-AllDescriptors i f.iad a)
        (
          omega (arith, l),
          append-AllDescriptors f.class_descriptors (endpoint_descriptors f.endpoints) c
              (endpoints-AllDescriptors f.endpoints e),
        ))
      (descriptors-AllDescriptors (i + 1) fs h)

-- When the configuration is there, its descriptors have the lengths that SetDefaults gives them, each
-- class descriptor starts with its length, and all of them have less than 2^16 bytes, Configuration
-- returns a buffer that the host can read: descriptor by descriptor it is the configuration (nine bytes)
-- and the descriptors of its interfaces in their order, and its field of the total length is the length
-- of the buffer.
pub configuration-chain :
    (d : Device) (index : ℕ) (conf : ConfigurationDescriptor)
    → get_elem? d.configurations index ≡ some conf
    → index < length d.configurations
    → index + 1 < 2 ^ 16
    → conf.length ≡ 9
    → AreInterfaces conf.interfaces
    → 9 + length (interfaces_bytes 0 conf.interfaces).0 < 2 ^ 16
    → (buf : List ℕ) × (d' : Device) × (configuration d index ≡ some (some buf, d'))
      × (chain (length buf) buf ≡ some (take 9 buf ∷ descriptors 0 conf.interfaces))
      × (le_value (take 2 (drop 2 buf)) ≡ length buf)
unfolding configuration configuration_bytes AllDescriptors IsDescriptor
configuration-chain d index conf e hi small l are room =
    let loop = interfaces_bytes 0 conf.interfaces in
    let total = (conf.length + length loop.0) % 2 ^ 16 in
    let conf' : ConfigurationDescriptor = record conf {
      interfaces = loop.1;
      total_length = total;
    } in
    let inside : ltb (length d.configurations) ((index + 1) % 2 ^ 16) ≡ false = ground arith in
    let whole : concat (configuration_bytes conf' ∷ descriptors 0 conf.interfaces)
        ≡ configuration_bytes conf' ++ loop.0 =
      rw (concat-descriptors 0 conf.interfaces) refl in
    let all : AllDescriptors (configuration_bytes conf' ∷ descriptors 0 conf.interfaces) =
      (omega (arith, l), descriptors-AllDescriptors 0 conf.interfaces are) in
    (
      configuration_bytes conf' ++ loop.0,
      record d { configurations = set d.configurations index conf' },
      rw (inside, e) refl,
      ap (chain (length (configuration_bytes conf' ++ loop.0))) (sym whole)
          ∙ chain-concat (length (configuration_bytes conf' ++ loop.0))
              (configuration_bytes conf' ∷ descriptors 0 conf.interfaces)
              (omega (
                arith,
                length-concat (configuration_bytes conf' ∷ descriptors 0 conf.interfaces) all,
                ap length whole,
              ))
              all,
      omega (arith, l),
    )
