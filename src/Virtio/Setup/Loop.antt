-- ===== src/Virtio/Setup/Loop.antt =====
-- The loop of Init: a descriptor for each part of the reserved buffer.
use mathlib.Core.List.{append-nil, append_assoc}
use native.Mathlib.Nat.{mul-suc, mul-add, mod-eq_of_lt}
use tamago.Prelude.{
  ℕ, zero, suc, ◌+◌, ◌-◌, ◌*◌, ◌%◌, ◌^◌, ◌≤◌, ◌<◌, ◌≡◌, refl, ap, ◌∙◌, true, false, ◌&&◌, some,
  List, [], ◌∷◌, ◌++◌, length, leb, ◌==◌, add64, arith,
}
use tamago.Dma.{Region, Slice, reserved}
use tamago.Virtio.{Descriptor, Ring, VirtualQueue}
use tamago.Virtio.Setup.{sub_slice, init_descriptor, init_descriptors}

-- The descriptor of round `i`, and those of `k` rounds.
abbrev pub part : Slice → ℕ → ℕ → ℕ → Descriptor
part buf n flags i = record {
  address = buf.ptr + n * i;
  length = n % 2 ^ 32;
  flags = flags;
  next = 0;
  buf = record { ptr = buf.ptr + n * i; len = n };
}

abbrev pub parts : Slice → ℕ → ℕ → ℕ → ℕ → List Descriptor
parts buf n flags zero i = []
parts buf n flags (suc k) i = part buf n flags i ∷ parts buf n flags k (i + 1)

abbrev pub numbers : ℕ → ℕ → List ℕ
numbers zero i = []
numbers (suc k) i = i % 2 ^ 16 ∷ numbers k (i + 1)

abbrev pub no_rings : ℕ → List Ring
no_rings zero = []
no_rings (suc k) = record { index = 0; length = 0 } ∷ no_rings k

pub length-parts : (buf : Slice) (n flags k i : ℕ) → length (parts buf n flags k i) ≡ k
length-parts buf n flags zero i = refl
length-parts buf n flags (suc k) i = ap suc (length-parts buf n flags k (i + 1))

pub length-numbers : (k i : ℕ) → length (numbers k i) ≡ k
length-numbers zero i = refl
length-numbers (suc k) i = ap suc (length-numbers k (i + 1))

pub length-no_rings : (k : ℕ) → length (no_rings k) ≡ k
length-no_rings zero = refl
length-no_rings (suc k) = ap suc (length-no_rings k)

abbrev pub extended : VirtualQueue → List Descriptor → List ℕ → List Ring → VirtualQueue
extended d ds ns rs = record d {
  descriptors = d.descriptors ++ ds;
  available = record d.available { ring = d.available.ring ++ ns };
  used = record d.used { ring = d.used.ring ++ rs };
}

module _ (r : Region) (buf : Slice) (n flags : ℕ) (pos : 0 < n) (lo : r.start ≤ buf.ptr)
    (hi : buf.ptr + buf.len ≤ r.start + r.size) (fits : r.start + r.size < 2 ^ 64) where
  step_lem :
      (i : ℕ)
      → n * i + n ≤ buf.len
      → (sub_slice buf (n * i % 2 ^ 64) (add64 (n * i % 2 ^ 64) n)
          ≡ some (record { ptr = buf.ptr + n * i; len = n }))
        × (init_descriptor r (record { ptr = buf.ptr + n * i; len = n }) flags
            ≡ some (part buf n flags i))
  unfolding init_descriptor reserved
  step_lem i h =
      let off : n * i % 2 ^ 64 ≡ n * i = mod-eq_of_lt (omega arith) in
      let upto : add64 (n * i) n ≡ n * i + n = mod-eq_of_lt (omega arith) in
      let test : (leb (n * i) (n * i + n) && leb (n * i + n) buf.len) ≡ true = ground arith in
      let size : n * i + n - n * i ≡ n = omega arith in
      let nonempty : (n == 0) ≡ false = ground arith in
      let inside : (leb r.start (buf.ptr + n * i)
            && leb (add64 (buf.ptr + n * i) n) (add64 r.start r.size))
          ≡ true =
        ground arith in
      (rw (off, upto, test, size) refl, rw (nonempty, inside) refl)

  -- The loop makes the parts in order.
  pub init_descriptors_lem :
      (k i : ℕ) (d : VirtualQueue)
      → n * (i + k) ≤ buf.len
      → init_descriptors r buf n flags k i d
        ≡ some (extended d (parts buf n flags k i) (numbers k i) (no_rings k))
  unfolding init_descriptors
  init_descriptors_lem zero i d h =
      rw (append-nil d.descriptors, append-nil d.available.ring, append-nil d.used.ring) refl
  init_descriptors_lem (suc k) i d h =
      let split : n * (i + suc k) ≡ n * i + (n * k + n) =
        mul-add n i (suc k) ∙ ap (λ (t : ℕ). n * i + t) (mul-suc n k) in
      let moved : n * (i + 1 + k) ≡ n * (i + suc k) = ap (λ (t : ℕ). n * t) (omega arith) in
      let room : n * i + n ≤ buf.len = omega (arith, h, split) in
      let here = step_lem i room in
      let d' =
        extended d (part buf n flags i ∷ []) (i % 2 ^ 16 ∷ [])
          (record { index = 0; length = 0 } ∷ []) in
      let later = init_descriptors_lem k (i + 1) d' (omega (arith, h, moved)) in
      rw
        (
          here.0,
          here.1,
          later,
          append_assoc d.descriptors (part buf n flags i ∷ []) (parts buf n flags k (i + 1)),
          append_assoc d.available.ring (i % 2 ^ 16 ∷ []) (numbers k (i + 1)),
          append_assoc d.used.ring (record { index = 0; length = 0 } ∷ []) (no_rings k),
        )
        refl
