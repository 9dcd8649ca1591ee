-- ===== src/Enet/Tests.antt =====
-- Rings of two places, as init leaves them (soc/nxp/enet/dma.go).
use tamago.Prelude.{
  ℕ, ◌+◌, ◌*◌, ◌<◌, ◌≡◌, refl, inl, true, [], ◌∷◌, replicate, arith, ◌==◌, if◌then◌else◌,
}
use tamago.Dma.{Slice}
use tamago.Dma.Memory.{Memory, load, store}
use tamago.Reg.{Registers}
use tamago.Enet.{
  BufferDescriptor, Ring, Stats, init, init_loop, init_descriptor, descriptor_bytes, transmit,
  receive,
}
use tamago.Enet.Push.{Transmits, transmit-Transmits}
use tamago.Enet.Counts.{IsCounting}
use tamago.Enet.Pop.{Receives, receive-Receives}

abbrev descriptors : Slice
descriptors = record { ptr = 0x1000; len = 16 }

abbrev frames : Slice
frames = record { ptr = 0x2000; len = 3072 }

abbrev blank : Memory
blank j = 0

abbrev registers : Registers
registers j = 0

abbrev bd : ℕ → ℕ → BufferDescriptor
bd i status = record {
  length = 0;
  status = status;
  addr = 0x2000 + 1536 * i;
  desc = record { ptr = 0x1000 + 8 * i; len = 8 };
  data_buffer = record { ptr = 0x2000 + 1536 * i; len = 1536 };
}

abbrev ring : Ring
ring = record { bds = bd 0 0 ∷ bd 1 0x2000 ∷ []; index = 1; size = 2 }

abbrev no_stats : Stats
no_stats = record {
  overrun = 0;
  frame_length_violation = 0;
  non_octet_aligned_frame = 0;
  crc_or_frame_error = 0;
  frame_too_small = 0;
  frame_too_large = 0;
}

no_stats-IsCounting : IsCounting no_stats
no_stats-IsCounting = record {
  overrun = omega arith;
  frame_length_violation = omega arith;
  non_octet_aligned_frame = omega arith;
  crc_or_frame_error = omega arith;
  frame_too_small = omega arith;
  frame_too_large = omega arith;
}

init_runs :
    (init true 2 descriptors frames blank).0
    ≡ record { bds = bd 0 0x8000 ∷ bd 1 0xa000 ∷ []; index = 0; size = 2 }
unfolding init init_loop init_descriptor descriptor_bytes
init_runs = refl

-- The status of the last descriptor: empty and wrap.
init_last : load (init true 2 descriptors frames blank).1 0x100a 2 ≡ 0 ∷ 0xa0 ∷ []
unfolding init init_loop init_descriptor descriptor_bytes load store
init_last = refl

transmit-Transmits_example :
    Transmits 0x100 registers ring
      (bd 1 0x2000)
      blank
      (replicate 60 7)
      (transmit 0x100 registers ring blank (replicate 60 7))
transmit-Transmits_example =
    transmit-Transmits 0x100 registers ring (bd 1 0x2000) blank (replicate 60 7) refl refl
      (inl (omega arith)) (omega arith)

-- A frame of 46 bytes with its checksum, the last of its buffer.
abbrev arrived : Memory
arrived j = if j == 0x1008 then 46 else if j == 0x100b then 0x28 else if j == 0x2600 then 5 else 0

arrived-byte : (x : ℕ) → arrived x < 256
arrived-byte x = ground arith

receive-Receives_example :
    Receives 0x104 registers ring
      (bd 1 0x2000)
      no_stats
      arrived
      (replicate 64 0)
      (receive 0x104 registers ring no_stats arrived (replicate 64 0))
receive-Receives_example =
    receive-Receives 0x104 registers ring (bd 1 0x2000) no_stats arrived (replicate 64 0) refl
      arrived-byte (omega arith) no_stats-IsCounting
