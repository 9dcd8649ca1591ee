-- ===== src/Lib.antt =====
-- TamaGo, bare metal Go: the parts of its packages that every driver and board rests on.
--
-- The program is a set of packages that give Go code direct access to a processor and its devices.
--
-- Dma models the packages dma/region.go and dma/dma.go: a region of memory with an ordered list of free
-- blocks and a map of used ones. `Region` is the struct, `Block` is the struct `block`, and `init`,
-- `new_region`, `reserve`, `reserved`, `free`, `release` and, in Dma/Memory, `alloc_buffer` (Alloc), `read`
-- and `write` are the methods. `find_place` and `carve` are the two halves of the method alloc, `merge`
-- is the loop of defrag and `insert_block` the loop of free. The map is an association list. A `uint` is
-- a number below 2 ^ 64 and its arithmetic wraps; an `int` is its 64-bit pattern. The mutex makes each
-- method one step, and a panic is an outcome that leaves the region as it was.
-- Dma/Memory models dma/block.go and dma/block_arm64.go on a memory of one byte at each address: the
-- plain copies, and the aligned and chunked ones. The chunk loop takes as fuel one more than the
-- number of bytes, which is enough as each round advances; it is part of the copy's definition.
-- Dma/Memory/History runs sequences of calls on one region.
--
-- Bits models the package bits (bits/bits16.go, bits/bits32.go, bits/bits64.go). `Bits/Word` has the
-- functions at a width that is an argument.
--
-- Reg models internal/reg (reg8.go, reg16.go, reg32.go, reg64.go) over a map from addresses to values;
-- Reg/Poll has the loops that wait for a field, over a device and a clock that change between rounds.
-- Their fuel is an argument, and running out is told apart from both results.
--
-- Virtio models kvm/virtio/queue.go: descriptors, the available and the used ring, Pop, Push and
-- NeedsNotify in Virtio.antt, the Bytes methods in Virtio/Encoding, Init and Destroy in Virtio/Setup. All
-- buffers are slices of one memory, the one of Dma/Memory, and the device is any change of that memory;
-- Virtio/Steps puts calls of the driver and writes of the device in any order. Up to 4096 entries no
-- offset of the rings wraps, and the theorems are for such queues.
--
-- Gvnic models Receive and Transmit of kvm/gvnic/gve.go with the cursors of kvm/gvnic/queue.go, over the
-- same memory and with the doorbells as registers of Reg. Counters have 32 bits and wrap; a ring size and
-- a number of pages divide 2 ^ 32 where the theorems on Transmit need it.
--
-- Rng models Fill of internal/rng/rng.go, with fuel of five for a loop of at most four rounds.
--
-- Usb models the device mode of soc/nxp/usb: the descriptors with their defaults and bytes (Usb.antt), the
-- device with its strings and configurations (Usb/Device), both from descriptor.go; the transfer
-- descriptors and control registers of endpoint.go (Usb/Endpoint); the handler of setup packets of
-- setup.go (Usb/Setup). A transfer on endpoint 0 is an entry of a log, and whether it succeeds is an
-- argument; the loop of transfer has a round for each byte and one more as fuel, which it never uses up.
-- A descriptor belongs to one list: no pointer is shared. The addresses that a transfer's descriptors
-- are allocated at, and the registers that its loop reads in each round, are arguments.
--
-- Enet models the descriptor rings of soc/nxp/enet/dma.go over the memory of Dma/Memory, with Receive and
-- Transmit and their doorbells. Read and Write copy in two parts, as the source does for the alignment.
--
-- Arm64 models the translation tables of arm64/mmu.go: the entries are registers of Reg, an index of a
-- table is the number of the source, and the loops of 512 rounds count their rounds. Arm64/Walk says what
-- the processor does with the tables; Tables has what the three loops have in common, Pages, Blocks and
-- Gigabytes the loops, Start the whole, Configure a section that is set afterwards. Each boundary of
-- memory or text inside a block costs a table of each level below, so six pages of the arena are enough
-- for the three boundaries.
--
-- Arm models arm/mmu.go in the same way, for the entries of 32 bits: Arm/Sweep has the loops over
-- entries, Sections the methods that change them, Pages, Rounds and Flat the tables of InitMMU, and
-- Start the map that the processor sees. A loop has as many rounds as the source has entries left.
--
-- Pmp models ReadPMP and WritePMP of riscv64/pmp.go, and Mdio the frames of internal/mdio/mdio.go; both
-- rest on Bits. What a write of a protection register leaves is written out in Pmp: locked entries stay.
--
-- Prelude has the shared helpers: Boolean tests on numbers, lists, machine words, and the digits of
-- a binary number, by which all masks are reasoned about.
--
-- Not modelled: assembly other than the register helpers, the other drivers, the boards, and the Go
-- runtime hooks; the order of memory accesses as seen by other cores.
pub mod Prelude
pub mod Arm
pub mod Arm64
pub mod Bits
pub mod Dma
pub mod Enet
pub mod Gvnic
pub mod Mdio
pub mod Pmp
pub mod Reg
pub mod Rng
pub mod Usb
pub mod Virtio
