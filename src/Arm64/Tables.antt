-- ===== src/Arm64/Tables.antt =====
-- What the loops of arm64/mmu.go have in common: a range of entries is built, with the tables that they
-- need, and the walk through them translates a range of addresses.
use tamago.Prelude.{ℕ, ◌+◌, ◌%◌, ◌^◌, ◌<◌, ◌≤◌, ◌≡◌, inl, inr, ◌⊎◌, refl, ◌∙◌, arith}
use native.Mathlib.Decide.{dec_lt}
use tamago.Reg.{Registers, write}
use tamago.Arm64.{MmuMap, tte_table}
use tamago.Arm64.Walk.{Translation, region, translated}

-- The map with another first free page.
abbrev pub with_next : MmuMap → ℕ → MmuMap
with_next m n = record m { arena_next = n }

-- The walk from a table on.
abbrev pub from : (Registers → ℕ → ℕ → Translation) → ℕ → Registers → ℕ → Translation
from walk base g va = walk g base va

-- What `init` and `alloc` keep of a map.
pub record Sound (m : MmuMap) : Type 0 where
  pub start_page : m.ram_start % 4096 ≡ 0
  pub text_page : m.text_end % 4096 ≡ 0
  pub end_page : m.ram_end % 4096 ≡ 0
  pub start_text : m.ram_start ≤ m.text_end
  pub text_end : m.text_end ≤ m.ram_end
  pub arena_page : m.arena_next % 4096 ≡ 0
  pub arena_room : m.arena_end ≤ 2 ^ 48

unfoldable pub Kept : Registers → Registers → ℕ → ℕ → Type 0
Kept g g' lo hi = (x : ℕ) → lo ≤ x → x < hi → g' x ≡ g x

-- From `g` to `after`: the entries from `lo` to `hi` map the addresses from `a` to `e`, with tables from
-- at most `u` bytes of the arena, which then starts at `next`, whatever is written elsewhere afterwards.
pub record Builds (walk : Registers → ℕ → Translation) (m : MmuMap) (g : Registers)
    (lo hi a e u : ℕ) (after : Registers) (next : ℕ) : Type 0 where
  pub grows : m.arena_next ≤ next
  pub uses : next ≤ m.arena_next + u
  pub page : next % 4096 ≡ 0
  pub same : (x : ℕ) → (x < m.arena_next) ⊎ (next ≤ x) → (x < lo) ⊎ (hi ≤ x) → after x ≡ g x
  pub walks :
      (g' : Registers)
      → Kept after g' lo hi
      → Kept after g' m.arena_next next
      → (va : ℕ) → a ≤ va
      → va < e
      → walk g' va ≡ translated (region m va) va

pub write_self : (g : Registers) (x v : ℕ) → write g x v x ≡ v
write_self g x v = ground arith

pub write_apart : (g : Registers) (x v y : ℕ) → (y < x) ⊎ (x < y) → write g x v y ≡ g y
write_apart g x v y h = ground arith

-- No entry.
pub none-Builds :
    (walk : Registers → ℕ → Translation) (m : MmuMap) (g : Registers) (lo hi a e : ℕ)
    → Sound m
    → e ≤ a
    → Builds walk m g lo hi a e 0 g m.arena_next
none-Builds walk m g lo hi a e s h = record {
  grows = omega arith;
  uses = omega arith;
  page = s.arena_page;
  same = λ x p o. refl;
  walks = λ g' k1 k2 va p o. absurd (omega arith);
}

-- One entry, for a block or a page.
pub entry-Builds :
    (walk : Registers → ℕ → Translation) (m : MmuMap) (g : Registers) (lo a e v : ℕ)
    → Sound m
    → ((g' : Registers)
        → g' lo ≡ v
        → (va : ℕ) → a ≤ va
        → va < e
        → walk g' va ≡ translated (region m va) va)
    → Builds walk m g lo (lo + 8) a e 0 (write g lo v) m.arena_next
unfolding Kept
entry-Builds walk m g lo a e v s w = record {
  grows = omega arith;
  uses = omega arith;
  page = s.arena_page;
  same = λ x p o. write_apart g lo v x (ground arith);
  walks = λ g' k1 k2 va p o. w g' (k1 lo (omega arith) (omega arith) ∙ write_self g lo v) va p o;
}

-- One entry, for a table in the next page of the arena.
pub table-Builds :
    (walk below : Registers → ℕ → Translation) (m : MmuMap) (g : Registers) (lo a e u : ℕ)
    (after : Registers) (next : ℕ)
    → lo + 8 ≤ m.arena_next
    → ((g' : Registers)
        → g' lo ≡ m.arena_next + tte_table
        → (va : ℕ) → a ≤ va
        → va < e
        → walk g' va ≡ below g' va)
    → Builds below
        (with_next m (m.arena_next + 4096))
        (write g lo (m.arena_next + tte_table))
        m.arena_next
        (m.arena_next + 4096)
        a
        e
        u
        after
        next
    → Builds walk m g lo (lo + 8) a e (4096 + u) after next
unfolding Kept region
table-Builds walk below m g lo a e u after next hl w b =
    let grown : m.arena_next + 4096 ≤ next = b.grows in
    let entry : after lo ≡ m.arena_next + tte_table =
      b.same lo (inl (omega arith)) (inl (omega arith))
      ∙ write_self g lo (m.arena_next + tte_table) in
    record {
      grows = omega arith;
      uses = omega (arith, b.uses);
      page = b.page;
      same = λ x p o.
          b.same x (ground arith) (ground arith)
          ∙ write_apart g lo (m.arena_next + tte_table) x (ground arith);
      walks = λ g' k1 k2 va p o.
          w g' (k1 lo (omega arith) (omega arith) ∙ entry) va p o
          ∙ b.walks g' (λ x c d. k2 x c (omega arith)) (λ x c d. k2 x (omega arith) d) va p o;
    }

-- Some entries and then the others.
pub append-Builds :
    (walk : Registers → ℕ → Translation) (m : MmuMap) (g : Registers) (lo mid hi a b e u u' : ℕ)
    (middle after : Registers) (taken next : ℕ)
    → lo ≤ mid
    → mid ≤ hi
    → hi ≤ m.arena_next
    → Builds walk m g lo mid a b u middle taken
    → Builds walk (with_next m taken) middle mid hi b e u' after next
    → Builds walk m g lo hi a e (u + u') after next
unfolding Kept region
append-Builds walk m g lo mid hi a b e u u' middle after taken next p q h first second =
    let start : m.arena_next ≤ taken = first.grows in
    let grown : taken ≤ next = second.grows in
    record {
      grows = omega arith;
      uses = omega (arith, first.uses, second.uses);
      page = second.page;
      same = λ x c d.
          second.same x (ground arith) (ground arith) ∙ first.same x (ground arith) (ground arith);
      walks = λ g' k1 k2 va c d. elim (dec_lt va b) [
        | yes below ↦
            first.walks g'
              (λ x i j. k1 x i (omega arith) ∙ second.same x (inl (omega arith)) (inl j))
              (λ x i j. k2 x i (omega arith) ∙ second.same x (inl j) (inr (omega arith))) va c below
        | no above ↦
            second.walks g' (λ x i j. k1 x (omega arith) j) (λ x i j. k2 x (omega arith) j) va
              (omega arith) d
      ];
    }

-- A bound may be larger.
pub within-Builds :
    (walk : Registers → ℕ → Translation) (m : MmuMap) (g : Registers) (lo hi a e u u' : ℕ)
    (after : Registers) (next : ℕ)
    → u ≤ u'
    → Builds walk m g lo hi a e u after next
    → Builds walk m g lo hi a e u' after next
within-Builds walk m g lo hi a e u u' after next h b = record {
  grows = b.grows;
  uses = omega (arith, b.uses);
  page = b.page;
  same = b.same;
  walks = b.walks;
}
