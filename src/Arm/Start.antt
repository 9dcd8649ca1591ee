-- ===== src/Arm/Start.antt =====
-- InitMMU (arm/mmu.go) as the processor sees it.
use tamago.Prelude.{
  ℕ, ◌+◌, ◌-◌, ◌*◌, ◌/◌, ◌%◌, ◌^◌, ◌<◌, ◌≤◌, ◌≡◌, ◌==◌, ◌&&◌, ◌||◌, ltb, leb, if◌then◌else◌, arith,
  true, false, refl, ◌∙◌, some, none, Bool-cases, inl, inr, ap,
}
use tamago.Reg.{Registers}
use tamago.Arm.{init_mmu}
use tamago.Arm.Walk.{walk, walk-section, walk-table}
use tamago.Arm.Pages.{page_value, small_page-page_value}
use tamago.Arm.Rounds.{ends_inside, section_value}
use tamago.Arm.Flat.{init_mmu-section, init_mmu-first_page, init_mmu-page}

first_section :
    (vbar ram_start ram_end text_end va : ℕ) (g : Registers)
    → vbar % 2 ^ 14 ≡ 0
    → vbar + 0x10000 ≤ 2 ^ 32
    → text_end < 2 ^ 32 - 2 ^ 20
    → va < 2 ^ 20
    → walk (init_mmu vbar ram_start ram_end text_end g) (vbar + 0x4000) va
      ≡ (if ltb va 4096 then none else some (va, true))
first_section vbar ram_start ram_end text_end va g aligned bound high h =
    let m = init_mmu vbar ram_start ram_end text_end g in
    let q = va / 2 ^ 12 % 256 in
    let page = if q == 0 then 0 else page_value ram_start ram_end text_end (q * 2 ^ 12) in
    let top = init_mmu-section vbar ram_start ram_end text_end aligned bound high g (va / 2 ^ 20) in
    let first : m (vbar + 0x4000 + 4 * (va / 2 ^ 20)) ≡ vbar + 0xc000 + 1 =
      top (omega arith) ∙ ground arith in
    let entry : m (vbar + 0xc000 + 4 * q) ≡ page =
      init_mmu-first_page vbar ram_start ram_end text_end aligned bound high g q (omega arith) in
    walk-table m (vbar + 0x4000) va (vbar + 0xc000) page first (omega arith) entry
    ∙ ground (arith, small_page-page_value ram_start ram_end text_end (q * 2 ^ 12) va (omega arith))

last_section :
    (vbar ram_start ram_end text_end va : ℕ) (g : Registers)
    → vbar % 2 ^ 14 ≡ 0
    → vbar + 0x10000 ≤ 2 ^ 32
    → text_end < 2 ^ 32 - 2 ^ 20
    → 2 ^ 20 ≤ va
    → ends_inside text_end (va / 2 ^ 20) ≡ true
    → walk (init_mmu vbar ram_start ram_end text_end g) (vbar + 0x4000) va ≡ some (va, true)
unfolding section_value
last_section vbar ram_start ram_end text_end va g aligned bound high h inside =
    let m = init_mmu vbar ram_start ram_end text_end g in
    let q = va / 2 ^ 12 % 256 in
    let s = text_end / 2 ^ 20 * 2 ^ 20 in
    let page = page_value ram_start ram_end text_end (s + q * 2 ^ 12) in
    let here : va / 2 ^ 20 ≡ text_end / 2 ^ 20 = ground arith in
    let inner : text_end % 2 ^ 20 == 0 ≡ false = ground arith in
    let top = init_mmu-section vbar ram_start ram_end text_end aligned bound high g (va / 2 ^ 20) in
    let first : m (vbar + 0x4000 + 4 * (va / 2 ^ 20)) ≡ vbar + 0xc400 + 1 =
      top (omega arith) ∙ ground arith in
    let entry : m (vbar + 0xc400 + 4 * q) ≡ page =
      init_mmu-page vbar ram_start ram_end text_end aligned bound high g q (omega arith)
        (omega arith) inner in
    walk-table m (vbar + 0x4000) va (vbar + 0xc400) page first (omega arith) entry
    ∙ small_page-page_value ram_start ram_end text_end (s + q * 2 ^ 12) va (omega arith)
    ∙ ap (λ a. some (a, true)) (omega arith)

other_section :
    (vbar ram_start ram_end text_end va : ℕ) (g : Registers)
    → vbar % 2 ^ 14 ≡ 0
    → vbar + 0x10000 ≤ 2 ^ 32
    → text_end < 2 ^ 32 - 2 ^ 20
    → 2 ^ 20 ≤ va
    → va < 2 ^ 32
    → ends_inside text_end (va / 2 ^ 20) ≡ false
    → walk (init_mmu vbar ram_start ram_end text_end g) (vbar + 0x4000) va
      ≡ some (va, leb ram_start (va / 2 ^ 20 * 2 ^ 20) && ltb (va / 2 ^ 20 * 2 ^ 20) text_end)
unfolding section_value
other_section vbar ram_start ram_end text_end va g aligned bound high h hva outside =
    let m = init_mmu vbar ram_start ram_end text_end g in
    let s = va / 2 ^ 20 * 2 ^ 20 in
    let flags : ℕ =
      if leb ram_start s && ltb s text_end
      then 0x40e
      else if leb ram_start s && ltb s ram_end
      then 0x41e
      else 0x412 in
    let top = init_mmu-section vbar ram_start ram_end text_end aligned bound high g (va / 2 ^ 20) in
    let stored : m (vbar + 0x4000 + 4 * (va / 2 ^ 20)) ≡ s + flags =
      top (omega arith) ∙ ground arith in
    let sum : s + va % 2 ^ 20 ≡ va = omega arith in
    let exec : flags / 2 ^ 4 % 2 == 0 ≡ leb ram_start s && ltb s text_end = ground arith in
    let base : s % 2 ^ 20 ≡ 0 = omega arith in
    let small : flags < 2 ^ 20 = ground arith in
    let kind : flags % 4 ≡ 2 = ground arith in
    walk-section m (vbar + 0x4000) va s flags stored base small kind ∙ rw (sum, exec) refl

-- For tables that are aligned and end below 2^32, and a text that ends below the last section: after
-- InitMMU each address from 4096 on is translated to itself, and the ones below it fault. An address is
-- executable if its section starts between the start of memory and the end of the text; and so is
-- every address of the first section and of the section that the text ends in, unless it ends with
-- it, whatever lies there.
pub init_mmu-flat :
    (vbar ram_start ram_end text_end va : ℕ) (g : Registers)
    → vbar % 2 ^ 14 ≡ 0
    → vbar + 0x10000 ≤ 2 ^ 32
    → text_end < 2 ^ 32 - 2 ^ 20
    → va < 2 ^ 32
    → walk (init_mmu vbar ram_start ram_end text_end g) (vbar + 0x4000) va ≡ (
        if ltb va 4096
        then none
        else some (
          va,
          ltb va (2 ^ 20)
              || ends_inside text_end (va / 2 ^ 20)
              || (leb ram_start (va / 2 ^ 20 * 2 ^ 20) && ltb (va / 2 ^ 20 * 2 ^ 20) text_end),
        ))
init_mmu-flat vbar ram_start ram_end text_end va g aligned bound high hva =
    elim (Bool-cases (ltb va (2 ^ 20))) [
      | inl low ↦
          first_section vbar ram_start ram_end text_end va g aligned bound high (ground arith)
          ∙ rw low refl
      | inr not_low ↦
          let from : 2 ^ 20 ≤ va = ground arith in
          let no_fault : ltb va 4096 ≡ false = ground arith in
          elim (Bool-cases (ends_inside text_end (va / 2 ^ 20))) [
            | inl inside ↦
                last_section vbar ram_start ram_end text_end va g aligned bound high from inside
                ∙ rw (no_fault, not_low, inside) refl
            | inr outside ↦
                other_section vbar ram_start ram_end text_end va g aligned bound high from hva
                  outside
                ∙ rw (no_fault, not_low, outside) refl
          ]
    ]
