-- ===== src/Reg/Poll.antt =====
-- The loops that wait for a field of a register: Wait, WaitFor and WaitSignal of
-- internal/reg/reg32.go (WaitFor8, Wait16 and WaitFor16 are the same loops).
-- A device and the clock change between two rounds: `polled i` are the registers at the load of round
-- `i`, `now i` is time.Now() at its test, and `exited i` says whether the exit channel gives a value
-- then. Each loop takes fuel, and `none` means that it ran out.
use native.Mathlib.Decide.{dec_lt}
use tamago.Prelude.{
  ℕ, zero, suc, ◌+◌, ◌-◌, ◌≤◌, ◌<◌, ◌≡◌, inl, inr, refl, Bool, true, false, Option, none, some,
  arith, leb, ltb, ◌&&◌, ◌==◌, if◌then◌else◌, Bool-cases, ◌||◌,
}
use tamago.Reg.{Registers, get_n}

-- `for !done { Gosched(); if stop { return false } } return true`, from round `i` on.
pub poll : (ℕ → Bool) → (ℕ → Bool) → ℕ → ℕ → Option Bool
poll done stop zero i = none
poll done stop (suc f) i =
    let rest = poll done stop f (i + 1) in
    if done i then some true else if stop i then some false else rest

module _ (polled : ℕ → Registers) where
  -- The test of the three loops.
  abbrev pub matches : ℕ → ℕ → ℕ → ℕ → ℕ → Bool
  matches addr pos mask val i = get_n 32 (polled i) addr pos mask == val

  pub wait : ℕ → ℕ → ℕ → ℕ → ℕ → Option Bool
  wait fuel addr pos mask val = poll (matches addr pos mask val) (λ i. false) fuel 0

  pub wait_for : (ℕ → ℕ) → ℕ → ℕ → ℕ → ℕ → ℕ → ℕ → ℕ → Option Bool
  wait_for now fuel start timeout addr pos mask val =
      poll (matches addr pos mask val) (λ i. leb timeout (now i - start)) fuel 0

  pub wait_signal : (ℕ → Bool) → ℕ → ℕ → ℕ → ℕ → ℕ → Option Bool
  wait_signal exited fuel addr pos mask val = poll (matches addr pos mask val) exited fuel 0

-- The first round at which a loop stops, and what it returns there.
pub record IsStop (done stop : ℕ → Bool) (i k : ℕ) (r : Option Bool) : Type 0 where
  pub round : ℕ
  pub from : i ≤ round
  pub upto : round ≤ k
  pub result : r ≡ some (done round)
  pub ends : (done round || stop round) ≡ true
  pub waits : (j : ℕ) → (leb i j && ltb j round && (done j || stop j)) ≡ false

pub poll-IsStop :
    (done stop : ℕ → Bool) (f i k : ℕ)
    → i ≤ k
    → k < i + f
    → (done k || stop k) ≡ true
    → IsStop done stop i k (poll done stop f i)
unfolding poll
poll-IsStop done stop zero i k h l e = absurd (omega arith)
poll-IsStop done stop (suc f) i k h l e = elim (Bool-cases (done i)) [
  | inl hit ↦ record {
    round = i;
    from = omega arith;
    upto = h;
    result = rw (hit, poll) refl;
    ends = ground arith;
    waits = λ j. ground arith;
  }
  | inr miss ↦ elim (Bool-cases (stop i)) [
    | inl quit ↦ record {
      round = i;
      from = omega arith;
      upto = h;
      result = rw (miss, quit, poll) refl;
      ends = ground arith;
      waits = λ j. ground arith;
    }
    | inr on ↦
        let later : i + 1 ≤ k = elim (dec_lt i k) [
          | yes p ↦ omega arith
          | no p ↦
              let same : k ≡ i = omega arith in
              let d : done k ≡ false = rw same miss in
              let s : stop k ≡ false = rw same on in absurd (ground arith)
        ] in
        let r = poll-IsStop done stop f (i + 1) k later (omega arith) e in
        record {
          round = r.round;
          from = omega (arith, r.from);
          upto = r.upto;
          result = rw (miss, on, poll) r.result;
          ends = r.ends;
          waits = λ j. elim (dec_lt i j) [
            | yes b ↦ let w = r.waits j in ground arith
            | no b ↦ elim (dec_lt j i) [
              | yes c ↦ ground arith
              | no c ↦
                  let same : j ≡ i = omega arith in
                  let d : done j ≡ false = rw same miss in
                  let s : stop j ≡ false = rw same on in ground arith
            ]
          ];
        }
  ]
]

-- WaitFor also returns when the value is never read: at the latest at a round whose time has reached
-- the timeout.
pub wait_for-timeout :
    (polled : ℕ → Registers) (now : ℕ → ℕ) (fuel start timeout addr pos mask val k : ℕ)
    → k < fuel
    → start + timeout ≤ now k
    → IsStop
        (matches polled addr pos mask val)
        (λ i. leb timeout (now i - start))
        0
        k
        (wait_for polled now fuel start timeout addr pos mask val)
unfolding wait_for
wait_for-timeout polled now fuel start timeout addr pos mask val k h e =
    let timed : leb timeout (now k - start) ≡ true = ground arith in
    let test : (matches polled addr pos mask val k || leb timeout (now k - start)) ≡ true =
      elim (Bool-cases (matches polled addr pos mask val k)) [
        | inl m ↦ rw m refl
        | inr m ↦ rw (m, timed) refl
      ] in
    poll-IsStop _ _ fuel 0 k (omega arith) (omega arith) test
