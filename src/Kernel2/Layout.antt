-- ===== src/Kernel2/Layout.antt =====
-- What a thread of arduino/context_switch_2_0/context_switch_2_0.ino that is suspended in
-- `do_switch` leaves on its stack.
use ecp_c.Base.{ℕ, ◌+◌, ◌-◌, ◌/◌, ◌%◌, ◌^◌, ◌≤◌, ◌<◌, ◌≡◌, inl, inr, refl, ◌∙◌, [], arith}
use mathlib.Core.List.{map}
use ecp_c.System.{Cpu}
use ecp_c.Context.{registers_up, registers_down, push_byte}
use ecp_c.Context.Frames.{
  peek, store_down, reversed, store_down_above, store_down_below, peek-store_down, peek-eq,
}
use ecp_c.Context.Layout.{Outside}
use ecp_c.Kernel2.Frame.{framed}

-- The 35 bytes above the saved stack pointer `p` of a thread that called `do_switch` with registers
-- `g` and status register `status`, and goes on at `ret`.
pub record IsFrame (ram : ℕ → ℕ) (p : ℕ) (g : ℕ → ℕ) (status ret : ℕ) : Type 0 where
  pub saved_status : ram (p + 1) ≡ status
  pub saved_regs : peek ram (p + 1) 32 ≡ map g registers_down
  pub return_high : ram (p + 34) ≡ ret / 256
  pub return_low : ram (p + 35) ≡ ret % 256

-- A frame is in its 35 bytes.
pub IsFrame-eq :
    (f h : ℕ → ℕ) (p : ℕ) {g : ℕ → ℕ} {status ret : ℕ}
    → ((q : ℕ) → p < q → q ≤ p + 35 → h q ≡ f q)
    → IsFrame f p g status ret
    → IsFrame h p g status ret
IsFrame-eq f h p same k = record {
  saved_status = same (p + 1) (omega arith) (omega arith) ∙ k.saved_status;
  saved_regs = peek-eq h f (p + 1) 32 (λ q a z. same q (omega arith) (omega arith)) ∙ k.saved_regs;
  return_high = same (p + 34) (omega arith) (omega arith) ∙ k.return_high;
  return_low = same (p + 35) (omega arith) (omega arith) ∙ k.return_low;
}

pub framed-Outside :
    (ram : ℕ → ℕ) (p : ℕ) (g : ℕ → ℕ) (status q : ℕ)
    → 33 ≤ p
    → Outside p 33 q
    → framed ram p g status q ≡ ram q
unfolding framed
framed-Outside ram p g status q room (inl below) =
    ground (arith, store_down_below ram p (map g registers_up) q (omega arith))
framed-Outside ram p g status q room (inr above) =
    ground (arith, store_down_above ram p (map g registers_up) q above)

-- The pushes, onto a return address that stands above them.
pushed-IsFrame :
    (m : ℕ → ℕ) (p p33 : ℕ) (g : ℕ → ℕ) (status ret : ℕ)
    → p33 ≡ p + 33
    → m (p + 34) ≡ ret / 256
    → m (p + 35) ≡ ret % 256
    → IsFrame (framed m p33 g status) p g status ret
unfolding framed
pushed-IsFrame m p p33 g status ret e high low = record {
  saved_status = ground arith;
  saved_regs = peek-eq _ below (p + 1) 32 (λ q a z. ground arith) ∙ bottom ∙ upside_down;
  return_high = ground (arith, store_down_above m p33 (map g registers_up) (p + 34) (omega arith));
  return_low = ground (arith, store_down_above m p33 (map g registers_up) (p + 35) (omega arith));
}
  where
    below : ℕ → ℕ
    below = store_down m p33 (map g registers_up)

    one : p33 - 32 ≡ p + 1
    one = omega arith

    bottom : peek below (p + 1) 32 ≡ reversed (map g registers_up) []
    bottom = rw (← one) (peek-store_down m p33 (map g registers_up) (omega arith))

    upside_down : reversed (map g registers_up) [] ≡ map g registers_down
    upside_down = unfold reversed in refl

-- The call of `do_switch` and its pushes leave a frame.
pub framed-IsFrame :
    (c : Cpu) (ret : ℕ)
    → c.sp < 2 ^ 16
    → 35 ≤ c.sp
    → let c' = push_byte (push_byte c (ret % 256)) (ret / 256) in
      IsFrame (framed c'.ram c'.sp c'.regs c'.sreg) (c.sp - 35) c.regs c.sreg ret
framed-IsFrame c ret small room =
    pushed-IsFrame _ (c.sp - 35) _ c.regs c.sreg ret (omega arith) (ground arith) (ground arith)
