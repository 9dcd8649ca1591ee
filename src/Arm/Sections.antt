-- ===== src/Arm/Sections.antt =====
-- ConfigureMMU and updateMMU (arm/mmu.go): the sections of the range are set, all others stay.
use tamago.Prelude.{
  ℕ, ◌+◌, ◌-◌, ◌*◌, ◌/◌, ◌%◌, ◌^◌, ◌<◌, ◌≤◌, ◌≡◌, ◌≢◌, zero, suc, ◌==◌, ◌&&◌, ltb, leb,
  if◌then◌else◌, arith, bit_or, refl, ◌∙◌, some, bit_and, Bool-cases, inl, inr,
}
use tamago.Bits.Word
use tamago.Reg.Fields.{set_n-bits}
use tamago.Prelude.Disjoint.{bit_or_disjoint}
use tamago.Reg.{Registers, set_n}
use tamago.Arm.{for_each, add32, rounds, configure_entry, configure_mmu, update_entry, update_mmu}
use tamago.Arm.Sweep.{for_each-once}
use tamago.Arm.Walk.{walk_section, walk_section-stored}

-- The rounds of a range reach the entries whose number is in it.
for_each-in_range :
    (body : ℕ → Registers → Registers) (start end e j : ℕ) (f : ℕ → ℕ) (g : Registers)
    → end ≤ 4096
    → e < 4096
    → ((i : ℕ) (g : Registers) → i < 4096 → body i g j ≡ (if i == e then f (g j) else g j))
    → for_each body (rounds start end) start g j
      ≡ (if leb start e && ltb e end then f (g j) else g j)
unfolding for_each
for_each-in_range body start end e j f g hend he sets = elim (Bool-cases (leb start end)) [
  | inl le ↦
      let all : rounds start end ≡ end - start = ground arith in
      let stop : start + (end - start) ≡ end = ground arith in
      rw all
        (for_each-once body 4096 e j f sets (end - start) start g (ground arith) ∙ rw stop refl)
  | inr gt ↦ let none_left : rounds start end ≡ 0 = ground arith in rw none_left (ground arith)
]

-- The entry for number `e` is set in round `e`.
configure_entry_lem :
    (vbar start alias flags e i : ℕ) (g : Registers)
    → vbar + 0x8000 ≤ 2 ^ 32
    → e < 4096
    → i < 4096
    → configure_entry (add32 vbar 0x4000) start alias flags i g (vbar + 0x4000 + 4 * e) ≡ (
        if i == e
        then bit_or
            (if ltb 0 alias then (alias + e - start) * 2 ^ 20 % 2 ^ 32 else e * 2 ^ 20 % 2 ^ 32)
            flags
        else g (vbar + 0x4000 + 4 * e))
unfolding configure_entry
configure_entry_lem vbar start alias flags e i g bound he hi =
    let place : add32 (add32 vbar 0x4000) (4 * i) ≡ vbar + 0x4000 + 4 * i = omega arith in
    rw place (ground arith)

configure_mmu-entry :
    (vbar start end alias flags e : ℕ) (g : Registers)
    → vbar + 0x8000 ≤ 2 ^ 32
    → end < 2 ^ 32
    → e < 4096
    → configure_mmu vbar start end alias flags g (vbar + 0x4000 + 4 * e) ≡ (
        if leb (start / 2 ^ 20) e && ltb e (end / 2 ^ 20)
        then bit_or
            (if ltb 0 (alias / 2 ^ 20)
              then (alias / 2 ^ 20 + e - start / 2 ^ 20) * 2 ^ 20 % 2 ^ 32
              else e * 2 ^ 20 % 2 ^ 32)
            flags
        else g (vbar + 0x4000 + 4 * e))
unfolding configure_mmu
configure_mmu-entry vbar start end alias flags e g bound hend he =
    let s = start / 2 ^ 20 in
    let v =
      bit_or
        (if ltb 0 (alias / 2 ^ 20)
          then (alias / 2 ^ 20 + e - s) * 2 ^ 20 % 2 ^ 32
          else e * 2 ^ 20 % 2 ^ 32)
        flags in
    for_each-in_range (configure_entry (add32 vbar 0x4000) s (alias / 2 ^ 20) flags) s
      (end / 2 ^ 20) e (vbar + 0x4000 + 4 * e) (λ _. v) g (omega arith) he
      (λ i g' hi. configure_entry_lem vbar s (alias / 2 ^ 20) flags e i g' bound he hi)

-- Nothing else is written.
for_each-range :
    (body : ℕ → Registers → Registers) (start end j : ℕ)
    → ((i : ℕ) (g : Registers) → start ≤ i → i < end → body i g j ≡ g j)
    → (k i : ℕ) (g : Registers) → start ≤ i
    → i + k ≤ end
    → for_each body k i g j ≡ g j
unfolding for_each
for_each-range body start end j keeps zero i g lo hi = refl
for_each-range body start end j keeps (suc k) i g lo hi =
    for_each-range body start end j keeps k (i + 1) (body i g) (omega arith) (omega arith)
    ∙ keeps i g lo (omega arith)

configure_mmu-other :
    (vbar start end alias flags j : ℕ) (g : Registers)
    → vbar + 0x8000 ≤ 2 ^ 32
    → end < 2 ^ 32
    → ((e : ℕ) → start / 2 ^ 20 ≤ e → e < end / 2 ^ 20 → j ≢ vbar + 0x4000 + 4 * e)
    → configure_mmu vbar start end alias flags g j ≡ g j
unfolding configure_mmu configure_entry for_each
configure_mmu-other vbar start end alias flags j g bound hend apart =
    let s = start / 2 ^ 20 in
    let body = configure_entry (add32 vbar 0x4000) s (alias / 2 ^ 20) flags in
    elim (Bool-cases (leb s (end / 2 ^ 20))) [
      | inl le ↦
          let all : rounds s (end / 2 ^ 20) ≡ end / 2 ^ 20 - s = ground arith in
          rw all (
            for_each-range body s (end / 2 ^ 20) j
              (λ i g' lo hi.
                (let place : add32 (add32 vbar 0x4000) (4 * i) ≡ vbar + 0x4000 + 4 * i =
                    omega arith in
                  rw place (ground (arith, apart i lo hi))))
              (end / 2 ^ 20 - s) s g (omega arith) (ground arith))
      | inr gt ↦ let none_left : rounds s (end / 2 ^ 20) ≡ 0 = ground arith in rw none_left refl
    ]

-- For tables below the end of memory, a range whose alias ends below it, and flags of a section. The three
-- addresses count in whole sections, so that an alias below 2^20 is none. After ConfigureMMU each
-- address in a section of the range is translated to the same place from the alias on, or to itself
-- without one, with these flags; no word other than the entries of the range is written, and so all
-- other entries, sections and tables alike, stay.
pub configure_mmu-sections :
    (vbar start end alias flags va : ℕ) (g : Registers)
    → vbar + 0x8000 ≤ 2 ^ 32
    → va < 2 ^ 32
    → end < 2 ^ 32
    → alias / 2 ^ 20 + end / 2 ^ 20 ≤ 2 ^ 12 + start / 2 ^ 20
    → flags < 2 ^ 20
    → flags % 4 ≡ 2
    → (walk_section (configure_mmu vbar start end alias flags g) (vbar + 0x4000) va ≡ (
        if leb (start / 2 ^ 20) (va / 2 ^ 20) && ltb (va / 2 ^ 20) (end / 2 ^ 20)
        then some (
          if ltb 0 (alias / 2 ^ 20)
              then alias / 2 ^ 20 * 2 ^ 20 + (va - start / 2 ^ 20 * 2 ^ 20)
              else va,
          flags,
        )
        else walk_section g (vbar + 0x4000) va))
      × ((j : ℕ)
          → ((e : ℕ) → start / 2 ^ 20 ≤ e → e < end / 2 ^ 20 → j ≢ vbar + 0x4000 + 4 * e)
          → configure_mmu vbar start end alias flags g j ≡ g j)
configure_mmu-sections vbar start end alias flags va g bound hva hend room small kind =
    let e = va / 2 ^ 20 in
    let pa =
      if ltb 0 (alias / 2 ^ 20)
      then (alias / 2 ^ 20 + e - start / 2 ^ 20) * 2 ^ 20 % 2 ^ 32
      else e * 2 ^ 20 % 2 ^ 32 in
    let entry = configure_mmu-entry vbar start end alias flags e g bound hend (omega arith) in
    let aligned : pa % 2 ^ 20 ≡ 0 = ground arith in
    let sum : bit_or pa flags ≡ pa + flags = bit_or_disjoint 20 pa flags aligned small in
    (
      elim (Bool-cases (leb (start / 2 ^ 20) e && ltb e (end / 2 ^ 20))) [
        | inl inside ↦
            let stored : configure_mmu vbar start end alias flags g (vbar + 0x4000 + 4 * e)
                ≡ pa + flags =
              entry ∙ rw (inside, sum) refl in
            let target : pa + va % 2 ^ 20 ≡ (
                if ltb 0 (alias / 2 ^ 20)
                then alias / 2 ^ 20 * 2 ^ 20 + (va - start / 2 ^ 20 * 2 ^ 20)
                else va) =
              ground arith in
            walk_section-stored (configure_mmu vbar start end alias flags g) (vbar + 0x4000) va pa
              flags stored aligned small kind
            ∙ rw (target, inside) refl
        | inr outside ↦ rw (entry, outside) refl
      ],
      λ j apart. configure_mmu-other vbar start end alias flags j g bound hend apart,
    )

set_n_value : ℕ → ℕ → ℕ → ℕ → ℕ
set_n_value v pos mask val = Word.set_n 32 v pos mask (bit_and val (mask % 2 ^ 32))

set_n_self :
    (g : Registers) (j pos mask val : ℕ)
    → set_n 32 g j pos mask val j ≡ set_n_value (g j) pos mask val
unfolding set_n_value
set_n_self g j pos mask val = rw (set_n-bits 32 g j pos mask val) (ground arith)

update_entry_lem :
    (vbar pos mask val e i : ℕ) (g : Registers)
    → vbar + 0x8000 ≤ 2 ^ 32
    → e < 4096
    → i < 4096
    → update_entry (add32 vbar 0x4000) pos mask val i g (vbar + 0x4000 + 4 * e) ≡ (
        if i == e
        then set_n_value (g (vbar + 0x4000 + 4 * e)) pos mask val
        else g (vbar + 0x4000 + 4 * e))
unfolding update_entry set_n_value
update_entry_lem vbar pos mask val e i g bound he hi =
    let place : add32 (add32 vbar 0x4000) (4 * i) ≡ vbar + 0x4000 + 4 * i = omega arith in
    rw (place, set_n-bits 32 g (vbar + 0x4000 + 4 * i) pos mask val) (ground arith)

-- For tables below the end of memory: updateMMU changes the field of each entry of the range as SetN
-- does, and no other entry.
pub update_mmu_lem :
    (vbar start end pos mask val e : ℕ) (g : Registers)
    → vbar + 0x8000 ≤ 2 ^ 32
    → end < 2 ^ 32
    → e < 4096
    → update_mmu vbar start end pos mask val g (vbar + 0x4000 + 4 * e) ≡ (
        if leb (start / 2 ^ 20) e && ltb e (end / 2 ^ 20)
        then set_n 32 g (vbar + 0x4000 + 4 * e) pos mask val (vbar + 0x4000 + 4 * e)
        else g (vbar + 0x4000 + 4 * e))
unfolding update_mmu
update_mmu_lem vbar start end pos mask val e g bound hend he =
    let j = vbar + 0x4000 + 4 * e in
    rw (set_n_self g j pos mask val) (
      for_each-in_range (update_entry (add32 vbar 0x4000) pos mask val) (start / 2 ^ 20)
        (end / 2 ^ 20) e j (λ v. set_n_value v pos mask val) g (omega arith) he
        (λ i g' hi. update_entry_lem vbar pos mask val e i g' bound he hi))
