-- ===== src/Enet/Counts.antt =====
-- What Valid (soc/nxp/enet/dma.go) accepts and counts, by the bits of the status and the length.
use tamago.Prelude.{
  ℕ, ◌+◌, ◌*◌, ◌/◌, ◌%◌, ◌^◌, ◌<◌, ◌≡◌, refl, ap, ◌∙◌, Bool, true, false, not, ◌&&◌, bit_and, ltb,
  leb, ◌==◌, if◌then◌else◌, arith, Bool-cases, inl, inr,
}
use tamago.Prelude.Digits.{bit_and_halves}
use tamago.Prelude.Disjoint.{bit_and_shift}
use tamago.Prelude.Align.{bit_and_low_mask}
use tamago.Enet.{BufferDescriptor, Stats, valid}

-- A bit of the status, as a number.
abbrev pub bit : BufferDescriptor → ℕ → ℕ
bit bd i = bd.status / 2 ^ i % 2

-- Last in frame, and no overrun, truncation, checksum error, odd length in bits or length violation.
abbrev pub is_last : BufferDescriptor → Bool
is_last bd = bit bd 11 == 1

abbrev pub is_wrong : BufferDescriptor → Bool
is_wrong bd = not (bit bd 0 + bit bd 1 + bit bd 2 + bit bd 4 + bit bd 5 == 0)

-- A frame that the caller gets: its length is from 42 to 1518.
abbrev pub accepted : BufferDescriptor → Bool
accepted bd = is_last bd && not (is_wrong bd) && leb 42 bd.length && leb bd.length 1518

-- By how much each counter grows. An overrun hides the other errors, and truncation alone counts nowhere.
abbrev when : Bool → ℕ → ℕ
when b n = if b then n else 0

abbrev pub tally : BufferDescriptor → Stats → Stats
tally bd st =
    let other = is_last bd && bit bd 1 == 0 in
    let right = is_last bd && not (is_wrong bd) in
    record {
      overrun = (st.overrun + when (is_last bd) (bit bd 1)) % 2 ^ 32;
      frame_length_violation = (st.frame_length_violation + when other (bit bd 5)) % 2 ^ 32;
      non_octet_aligned_frame = (st.non_octet_aligned_frame + when other (bit bd 4)) % 2 ^ 32;
      crc_or_frame_error = (st.crc_or_frame_error + when other (bit bd 2)) % 2 ^ 32;
      frame_too_small = (st.frame_too_small + when (right && ltb bd.length 42) 1) % 2 ^ 32;
      frame_too_large = (st.frame_too_large + when (right && ltb 1518 bd.length) 1) % 2 ^ 32;
    }

-- The counters hold 32 bits.
pub record IsCounting (st : Stats) : Type 0 where
  pub overrun : st.overrun < 2 ^ 32
  pub frame_length_violation : st.frame_length_violation < 2 ^ 32
  pub non_octet_aligned_frame : st.non_octet_aligned_frame < 2 ^ 32
  pub crc_or_frame_error : st.crc_or_frame_error < 2 ^ 32
  pub frame_too_small : st.frame_too_small < 2 ^ 32
  pub frame_too_large : st.frame_too_large < 2 ^ 32

one_bit : (x : ℕ) → bit_and x 1 ≡ x % 2
one_bit x = bit_and_low_mask 1 x

bit_eleven : (x : ℕ) → (bit_and x (2 ^ 11) == 0) ≡ not (x / 2 ^ 11 % 2 == 1)
bit_eleven x =
    let moved : bit_and x (2 ^ 11) ≡ x / 2 ^ 11 % 2 * 2 ^ 11 =
      bit_and_shift 11 x 1 ∙ ap (λ (t : ℕ). t * 2 ^ 11) (one_bit (x / 2 ^ 11)) in
    ground (arith, moved)

error_bits :
    (x : ℕ)
    → (bit_and x 55 == 0)
      ≡ (x / 2 ^ 0 % 2 + x / 2 ^ 1 % 2 + x / 2 ^ 2 % 2 + x / 2 ^ 4 % 2 + x / 2 ^ 5 % 2 == 0)
error_bits x =
    let sum : bit_and x 55
        ≡ x % 2 + x / 2 % 2 * 2 + x / 4 % 2 * 4 + x / 16 % 2 * 16 + x / 32 % 2 * 32 =
      omega (
        arith,
        bit_and_halves x 55,
        bit_and_halves (x / 2) 27,
        bit_and_halves (x / 2 / 2) 13,
        bit_and_halves (x / 2 / 2 / 2) 6,
        bit_and_halves (x / 2 / 2 / 2 / 2) 3,
        bit_and_low_mask 1 (x / 2 / 2 / 2 / 2 / 2),
      ) in
    ground (arith, sum)

pub valid_lem :
    (bd : BufferDescriptor) (st : Stats) → IsCounting st → valid bd st ≡ (accepted bd, tally bd st)
unfolding valid
valid_lem bd st c =
    let s = bd.status in
    let z1 : (st.overrun + 0) % 2 ^ 32 ≡ st.overrun = omega (arith, c.overrun) in
    let z2 : (st.frame_length_violation + 0) % 2 ^ 32 ≡ st.frame_length_violation =
      omega (arith, c.frame_length_violation) in
    let z3 : (st.non_octet_aligned_frame + 0) % 2 ^ 32 ≡ st.non_octet_aligned_frame =
      omega (arith, c.non_octet_aligned_frame) in
    let z4 : (st.crc_or_frame_error + 0) % 2 ^ 32 ≡ st.crc_or_frame_error =
      omega (arith, c.crc_or_frame_error) in
    let z5 : (st.frame_too_small + 0) % 2 ^ 32 ≡ st.frame_too_small =
      omega (arith, c.frame_too_small) in
    let z6 : (st.frame_too_large + 0) % 2 ^ 32 ≡ st.frame_too_large =
      omega (arith, c.frame_too_large) in
    rw
      (
        bit_eleven s,
        error_bits s,
        one_bit (s / 2 ^ 1),
        one_bit (s / 2 ^ 2),
        one_bit (s / 2 ^ 4),
        one_bit (s / 2 ^ 5),
      )
      (elim (Bool-cases (is_last bd)) [
        | inr e ↦ rw (e, z1, z2, z3, z4, z5, z6) refl
        | inl e ↦ elim (Bool-cases (is_wrong bd)) [
          | inl w ↦ elim (Bool-cases (bit bd 1 == 1)) [
            | inl o ↦
                let one : bit bd 1 ≡ 1 = ground arith in rw (e, w, one, z2, z3, z4, z5, z6) refl
            | inr o ↦
                let none_there : bit bd 1 ≡ 0 = ground arith in
                rw (e, w, none_there, z1, z5, z6) refl
          ]
          | inr r ↦
              let b1 : bit bd 1 ≡ 0 = ground arith in
              let b2 : bit bd 2 ≡ 0 = ground arith in
              let b4 : bit bd 4 ≡ 0 = ground arith in
              let b5 : bit bd 5 ≡ 0 = ground arith in
              elim (Bool-cases (ltb bd.length 42)) [
                | inl small ↦
                    let low : leb 42 bd.length ≡ false = ground arith in
                    let not_large : ltb 1518 bd.length ≡ false = ground arith in
                    rw (e, r, b1, b2, b4, b5, small, low, not_large, z1, z2, z3, z4, z6) refl
                | inr not_small ↦
                    let low : leb 42 bd.length ≡ true = ground arith in
                    elim (Bool-cases (ltb 1518 bd.length)) [
                      | inl large ↦
                          let high : leb bd.length 1518 ≡ false = ground arith in
                          rw (e, r, b1, b2, b4, b5, not_small, low, large, high, z1, z2, z3, z4, z5)
                            refl
                      | inr not_large ↦
                          let high : leb bd.length 1518 ≡ true = ground arith in
                          rw
                            (
                              e, r, b1, b2, b4, b5, not_small, low, not_large, high, z1, z2, z3, z4,
                              z5, z6,
                            )
                            refl
                    ]
              ]
        ]
      ])
