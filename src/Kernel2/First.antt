-- ===== src/Kernel2/First.antt =====
-- A new thread of arduino/context_switch_2_0/context_switch_2_0.ino: its stack is a frame, from which
-- the first switch to it starts it at its entry.
use ecp_c.Base.{
  ℕ, zero, suc, ◌+◌, ◌-◌, ◌/◌, ◌%◌, ◌^◌, ◌≤◌, ◌<◌, ◌≡◌, ◌≢◌, inl, inr, refl, sym, ap, ◌∙◌, arith,
  u16, Bool-cases, ◌==◌, ==→eq, ==→ne,
}
use mathlib.Core.Path.{subst}
use mathlib.Core.List.{map}
use ecp_c.System.{update}
use ecp_c.Context.{registers_down}
use ecp_c.Context.Frames.{peek, peek-eq}
use ecp_c.Create.{push_initial}
use ecp_c.Kernel2.Create.{push_zeros, fill_stack, initial_stack}
use ecp_c.Kernel2.Layout.{IsFrame}

abbrev pub zeros : ℕ → ℕ
zeros r = 0

push_zeros-sp :
    (n sp : ℕ) (ram : ℕ → ℕ) → n ≤ sp → sp < 2 ^ 16 → (push_zeros n (sp, ram)).0 ≡ sp - n
push_zeros-sp zero sp ram room small = omega arith
push_zeros-sp (suc n) sp ram room small =
    push_zeros-sp n (u16 (sp + 0xffff)) (update ram sp 0) (omega arith) (omega arith) ∙ omega arith

push_zeros-above :
    (n sp : ℕ) (ram : ℕ → ℕ) (q : ℕ)
    → n ≤ sp
    → sp < 2 ^ 16
    → sp < q
    → (push_zeros n (sp, ram)).1 q ≡ ram q
push_zeros-above zero sp ram q room small above = refl
push_zeros-above (suc n) sp ram q room small above =
    push_zeros-above n (u16 (sp + 0xffff)) (update ram sp 0) q (omega arith) (omega arith)
      (omega arith)
    ∙ ground arith

push_zeros-in :
    (n sp : ℕ) (ram : ℕ → ℕ) (q : ℕ)
    → n ≤ sp
    → sp < 2 ^ 16
    → q ≤ sp
    → sp < q + n
    → (push_zeros n (sp, ram)).1 q ≡ 0
push_zeros-in zero sp ram q room small low high = absurd (omega arith)
push_zeros-in (suc n) sp ram q room small low high = elim (Bool-cases (q == sp)) [
  | inl top ↦
      let e : q ≡ sp = ==→eq _ _ top in
      push_zeros-above n (u16 (sp + 0xffff)) (update ram sp 0) q (omega arith) (omega arith)
        (omega arith)
      ∙ ground arith
  | inr under ↦
      let ne : q ≢ sp = ==→ne _ _ under in
      push_zeros-in n (u16 (sp + 0xffff)) (update ram sp 0) q (omega arith) (omega arith)
        (omega arith) (omega arith)
]

module _ (entry stack stack_size : ℕ) (ram : ℕ → ℕ) (low : 36 ≤ stack + stack_size)
    (high : stack + stack_size ≤ 2 ^ 16) where
  abbrev top : ℕ
  top = stack + stack_size - 3

  abbrev under : ℕ → ℕ
  under =
      update (update (fill_stack stack stack_size ram) (top + 2) (entry % 256)) (top + 1)
        (entry / 256 % 256)

  pushed_entry :
      push_initial (entry / 256 % 256) (
        push_initial
          (entry % 256)
          (u16 (stack + stack_size + 0xffff), fill_stack stack stack_size ram))
      ≡ (top, under)
  pushed_entry = rw (d3, d2, d1) refl
    where
      down : ℕ → ℕ
      down a = u16 (a + 0xffff)

      d1 : down (stack + stack_size) ≡ top + 2
      d1 = omega arith

      d2 : down (down (stack + stack_size)) ≡ top + 1
      d2 = omega arith

      d3 : down (down (down (stack + stack_size))) ≡ top
      d3 = omega arith

  initial_stack-zeros : initial_stack entry stack stack_size ram ≡ push_zeros 33 (top, under)
  unfolding initial_stack
  initial_stack-zeros = ap (push_zeros 33) pushed_entry

  pub initial_stack-sp : (initial_stack entry stack stack_size ram).0 + 36 ≡ stack + stack_size
  initial_stack-sp = omega (
    arith,
    ap (λ r. r.0) initial_stack-zeros,
    push_zeros-sp 33 top under (omega arith) (omega arith),
  )

  pub initial_stack-IsFrame :
      entry < 2 ^ 16
      → let (sp, ram') = initial_stack entry stack stack_size ram in IsFrame ram' sp zeros 0 entry
  initial_stack-IsFrame small =
      subst (λ p. IsFrame p.1 p.0 zeros 0 entry) (sym initial_stack-zeros)
        (subst (λ p. IsFrame (push_zeros 33 (top, under)).1 p zeros 0 entry)
          (sym (push_zeros-sp 33 top under (omega arith) (omega arith)))
          (record {
            saved_status = zero_at (top - 33 + 1) (omega arith) (omega arith);
            saved_regs =
                peek-eq (push_zeros 33 (top, under)).1 zeros (top - 33 + 1) 32
                  (λ q a z. zero_at q (omega arith) (omega arith))
                ∙ all_zero;
            return_high = above (top - 33 + 34) (omega arith) ∙ ground arith;
            return_low = above (top - 33 + 35) (omega arith) ∙ ground arith;
          }))
    where
      zero_at : (q : ℕ) → q ≤ top → top < q + 33 → (push_zeros 33 (top, under)).1 q ≡ 0
      zero_at q under_top near =
          push_zeros-in 33 top under q (omega arith) (omega arith) under_top near

      above : (q : ℕ) → top < q → (push_zeros 33 (top, under)).1 q ≡ under q
      above q h = push_zeros-above 33 top under q (omega arith) (omega arith) h

      all_zero : peek zeros (top - 33 + 1) 32 ≡ map zeros registers_down
      all_zero = unfold peek in refl
