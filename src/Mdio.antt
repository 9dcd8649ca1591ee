-- ===== src/Mdio.antt =====
-- Package internal/mdio (internal/mdio/mdio.go): the management frame of Ethernet PHYs.
mod Tests
use tamago.Prelude.{ℕ, ◌+◌, ◌≤◌, ◌-◌, ◌^◌, ◌<◌, ◌≡◌, arith, ◌∙◌, inl, inr}
use tamago.Bits.Word.{get_n, set_n}
use tamago.Bits.Laws.{get_n-set_n}
use tamago.Bits.Digits.{set_n-lt}

pub frame : ℕ → ℕ → ℕ → ℕ → ℕ → ℕ → ℕ
frame st op pa ra ta content =
    let frame1 = set_n 32 0 30 0b11 st in
    let frame2 = set_n 32 frame1 28 0b11 op in
    let frame3 = set_n 32 frame2 23 0x1f pa in
    let frame4 = set_n 32 frame3 18 0x1f ra in
    let frame5 = set_n 32 frame4 16 0b11 ta in set_n 32 frame5 0 0xffff content

-- Each field of a frame reads back as it was given, if each fits its field.
pub get_n-frame :
    (st op pa ra ta content : ℕ)
    → st < 2 ^ 2
    → op < 2 ^ 2
    → pa < 2 ^ 5
    → ra < 2 ^ 5
    → ta < 2 ^ 2
    → content < 2 ^ 16
    → (get_n 32 (frame st op pa ra ta content) 30 0b11 ≡ st)
      × (get_n 32 (frame st op pa ra ta content) 28 0b11 ≡ op)
      × (get_n 32 (frame st op pa ra ta content) 23 0x1f ≡ pa)
      × (get_n 32 (frame st op pa ra ta content) 18 0x1f ≡ ra)
      × (get_n 32 (frame st op pa ra ta content) 16 0b11 ≡ ta)
      × (get_n 32 (frame st op pa ra ta content) 0 0xffff ≡ content)
unfolding frame
get_n-frame st op pa ra ta content h1 h2 h3 h4 h5 h6 =
    let v1 = set_n 32 0 30 0b11 st in
    let v2 = set_n 32 v1 28 0b11 op in
    let v3 = set_n 32 v2 23 0x1f pa in
    let v4 = set_n 32 v3 18 0x1f ra in
    let v5 = set_n 32 v4 16 0b11 ta in
    let l1 : v1 < 2 ^ 32 = set_n-lt 32 0 30 0b11 st (omega arith) in
    let l2 : v2 < 2 ^ 32 = set_n-lt 32 v1 28 0b11 op l1 in
    let l3 : v3 < 2 ^ 32 = set_n-lt 32 v2 23 0x1f pa l2 in
    let l4 : v4 < 2 ^ 32 = set_n-lt 32 v3 18 0x1f ra l3 in
    let l5 : v5 < 2 ^ 32 = set_n-lt 32 v4 16 0b11 ta l4 in
    let s1 =
      λ (q m : ℕ). get_n-set_n 32 0 30 2 st q m (omega arith) (omega arith) (omega arith) h1 in
    let s2 = λ (q m : ℕ). get_n-set_n 32 v1 28 2 op q m (omega arith) l1 (omega arith) h2 in
    let s3 = λ (q m : ℕ). get_n-set_n 32 v2 23 5 pa q m (omega arith) l2 (omega arith) h3 in
    let s4 = λ (q m : ℕ). get_n-set_n 32 v3 18 5 ra q m (omega arith) l3 (omega arith) h4 in
    let s5 = λ (q m : ℕ). get_n-set_n 32 v4 16 2 ta q m (omega arith) l4 (omega arith) h5 in
    let s6 = λ (q m : ℕ). get_n-set_n 32 v5 0 16 content q m (omega arith) l5 (omega arith) h6 in
    let k6 = λ (q m : ℕ) (a : q + m ≤ 32) (b : 16 ≤ q). (s6 q m a (inr b)).1 in
    let k5 =
      λ (q m : ℕ) (a : q + m ≤ 32) (b : 18 ≤ q). k6 q m a (omega arith) ∙ (s5 q m a (inr b)).1 in
    let k4 =
      λ (q m : ℕ) (a : q + m ≤ 32) (b : 23 ≤ q). k5 q m a (omega arith) ∙ (s4 q m a (inr b)).1 in
    let k3 =
      λ (q m : ℕ) (a : q + m ≤ 32) (b : 28 ≤ q). k4 q m a (omega arith) ∙ (s3 q m a (inr b)).1 in
    (
      k3 30 2 (omega arith) (omega arith)
          ∙ (s2 30 2 (omega arith) (inr (omega arith))).1
          ∙ (s1 0 0 (omega arith) (inl (omega arith))).0,
      k3 28 2 (omega arith) (omega arith) ∙ (s2 0 0 (omega arith) (inl (omega arith))).0,
      k4 23 5 (omega arith) (omega arith) ∙ (s3 0 0 (omega arith) (inl (omega arith))).0,
      k5 18 5 (omega arith) (omega arith) ∙ (s4 0 0 (omega arith) (inl (omega arith))).0,
      k6 16 2 (omega arith) (omega arith) ∙ (s5 0 0 (omega arith) (inl (omega arith))).0,
      (s6 16 0 (omega arith) (inr (omega arith))).0,
    )
