-- ===== src/Context/Layout.antt =====
-- Where `do_switch` may store, and what a suspended thread leaves on its stack.
use ecp_c.Base.{ℕ, ◌+◌, ◌-◌, ◌/◌, ◌%◌, ◌^◌, ◌≤◌, ◌<◌, ◌≡◌, ◌⊎◌, inl, inr, refl, ◌∙◌, [], arith}
use mathlib.Core.List.{map}
use ecp_c.System.{Cpu}
use ecp_c.Context.{registers_up, registers_down, push_byte}
use ecp_c.Context.Frames.{
  peek, store_down, reversed, store_down_above, store_down_below, peek-store_down, peek-eq,
}
use ecp_c.Context.Exec.{framed, marked}

-- `q` is not among the `n` addresses from `p` downwards.
abbrev pub Outside : ℕ → ℕ → ℕ → Type 0
Outside p n q = (q + n ≤ p) ⊎ (p < q)

-- The 37 bytes above the saved stack pointer `p` of a thread that called `do_switch` with registers
-- `g` and status register `status`, and goes on at `ret`.
pub record IsFrame (ram : ℕ → ℕ) (p : ℕ) (g : ℕ → ℕ) (status ret : ℕ) : Type 0 where
  pub mark : ram (p + 1) ≡ 0xab
  pub mark' : ram (p + 2) ≡ 0xab
  pub saved_status : ram (p + 3) ≡ status
  pub saved_regs : peek ram (p + 3) 32 ≡ map g registers_down
  pub return_high : ram (p + 36) ≡ ret / 256
  pub return_low : ram (p + 37) ≡ ret % 256

-- A frame is in its 37 bytes.
pub IsFrame-eq :
    (f h : ℕ → ℕ) (p : ℕ) {g : ℕ → ℕ} {status ret : ℕ}
    → ((q : ℕ) → p < q → q ≤ p + 37 → h q ≡ f q)
    → IsFrame f p g status ret
    → IsFrame h p g status ret
IsFrame-eq f h p same k = record {
  mark = same (p + 1) (omega arith) (omega arith) ∙ k.mark;
  mark' = same (p + 2) (omega arith) (omega arith) ∙ k.mark';
  saved_status = same (p + 3) (omega arith) (omega arith) ∙ k.saved_status;
  saved_regs = peek-eq h f (p + 3) 32 (λ q a z. same q (omega arith) (omega arith)) ∙ k.saved_regs;
  return_high = same (p + 36) (omega arith) (omega arith) ∙ k.return_high;
  return_low = same (p + 37) (omega arith) (omega arith) ∙ k.return_low;
}

pub framed-Outside :
    (ram : ℕ → ℕ) (p : ℕ) (g : ℕ → ℕ) (status q : ℕ)
    → 35 ≤ p
    → Outside p 35 q
    → framed ram p g status q ≡ ram q
unfolding framed marked
framed-Outside ram p g status q room (inl below) =
    ground (arith, store_down_below ram p (map g registers_up) q (omega arith))
framed-Outside ram p g status q room (inr above) =
    ground (arith, store_down_above ram p (map g registers_up) q above)

marked-ne : (m : ℕ → ℕ) (p status q : ℕ) → p < q → marked m p status q ≡ m q
unfolding marked
marked-ne m p status q h = ground arith

-- The pushes, onto a return address that stands above them.
pushed-IsFrame :
    (m : ℕ → ℕ) (p p35 : ℕ) (g : ℕ → ℕ) (status ret : ℕ)
    → p35 ≡ p + 35
    → m (p + 36) ≡ ret / 256
    → m (p + 37) ≡ ret % 256
    → IsFrame (framed m p35 g status) p g status ret
unfolding framed
pushed-IsFrame m p p35 g status ret e high low = record {
  mark = unfold marked in ground arith;
  mark' = unfold marked in ground arith;
  saved_status = unfold marked in ground arith;
  saved_regs =
      peek-eq _ below (p + 3) 32 (λ q a z. marked-ne below (p35 - 32) status q (omega arith))
      ∙ bottom
      ∙ upside_down;
  return_high =
      marked-ne below (p35 - 32) status (p + 36) (omega arith)
      ∙ store_down_above m p35 (map g registers_up) (p + 36) (omega arith)
      ∙ high;
  return_low =
      marked-ne below (p35 - 32) status (p + 37) (omega arith)
      ∙ store_down_above m p35 (map g registers_up) (p + 37) (omega arith)
      ∙ low;
}
  where
    below : ℕ → ℕ
    below = store_down m p35 (map g registers_up)

    three : p35 - 32 ≡ p + 3
    three = omega arith

    bottom : peek below (p + 3) 32 ≡ reversed (map g registers_up) []
    bottom = rw (← three) (peek-store_down m p35 (map g registers_up) (omega arith))

    upside_down : reversed (map g registers_up) [] ≡ map g registers_down
    upside_down = unfold reversed in refl

-- The call of `do_switch` and its pushes leave a frame.
pub framed-IsFrame :
    (c : Cpu) (ret : ℕ)
    → c.sp < 2 ^ 16
    → 37 ≤ c.sp
    → let c' = push_byte (push_byte c (ret % 256)) (ret / 256) in
      IsFrame (framed c'.ram c'.sp c'.regs (c'.sreg % 128)) (c.sp - 37) c.regs (c.sreg % 128) ret
framed-IsFrame c ret small room =
    pushed-IsFrame _ (c.sp - 37) _ c.regs (c.sreg % 128) ret (omega arith) (ground arith)
      (ground arith)
