-- ===== src/MsrBitmap/Intercepts.antt =====
-- The bits of the bitmap of arch/x64/vmx/vmx.c.
use hyve_mind.Prelude.{
  ltb, leb, ◌==◌, if◌then◌else◌, ltb→lt, Bool-cases, set, bit_at, Exec, ret, die, ℕ, ◌+◌, ◌-◌, ◌*◌,
  ◌/◌, ◌%◌, ◌^◌, ◌<◌, bit_and, bit_or, ◌≡◌, refl, ap, ◌∙◌, inl, inr, Bool, true, false, ◌&&◌, ◌||◌,
  Option, none, some, arith, ℕ_discrete,
}
use hyve_mind.MsrBitmap.{
  is_low_vmcs_msr, is_high_vmcs_msr, modify_msr_bitmap_bit, vmx_set_intercept_reg_rdmsr,
  vmx_set_intercept_reg_wrmsr, vmx_set_intercept_msr,
}
use hyve_mind.Vpic.Commands.{not8, u8_lshift_one}
use hyve_mind.Vpic.Lines.{bit_at-clear_line, bit_at-set_line}

-- Bit `k` of the bitmap.
abbrev pub bitmap_bit : (ℕ → ℕ) → ℕ → ℕ
bitmap_bit bitmap k = bit_at (bitmap (k / 8)) (k % 8)

-- The bit that the processor tests for a read and for a write of a register, if it has one: four
-- parts of 8192 bits, for reads of the low and the high registers and then for writes.
abbrev pub read_place : ℕ → Option ℕ
read_place msr =
    if ltb msr 0x2000
    then some (0 + msr)
    else if leb 0xc0000000 msr && ltb msr 0xc0002000
    then some (8192 + (msr - 0xc0000000))
    else none

abbrev pub write_place : ℕ → Option ℕ
write_place msr =
    if ltb msr 0x2000
    then some (16384 + msr)
    else if leb 0xc0000000 msr && ltb msr 0xc0002000
    then some (24576 + (msr - 0xc0000000))
    else none

modify_lem :
    (bitmap : ℕ → ℕ) (offset m k : ℕ) (set : Bool)
    → m < 8192
    → bitmap_bit (modify_msr_bitmap_bit bitmap offset m set) k
      ≡ (if k == offset * 8 + m then if set then 1 else 0 else bitmap_bit bitmap k)
unfolding modify_msr_bitmap_bit
modify_lem bitmap offset m k set h = elim (ℕ_discrete (k / 8) (offset + m / 8 % 2 ^ 32)) [
  | yes e ↦
      let at : (k / 8 == offset + m / 8 % 2 ^ 32) ≡ true = ground arith in
      let same : (k == offset * 8 + m) ≡ (m % 8 == k % 8) = ground arith in rw (at, same) (on set)
  | no ne ↦
      let other : (k / 8 == offset + m / 8 % 2 ^ 32) ≡ false = ground arith in
      let apart : (k == offset * 8 + m) ≡ false = ground arith in rw (other, apart) refl
]
  where
    on :
        (b : Bool)
        → bit_at
            (if b
              then bit_or (bitmap (k / 8)) (u8_lshift_one (m % 8))
              else bit_and (bitmap (k / 8)) (not8 (u8_lshift_one (m % 8))))
            (k % 8)
          ≡ (if m % 8 == k % 8 then if b then 1 else 0 else bitmap_bit bitmap k)
    on true = bit_at-set_line (bitmap (k / 8)) (m % 8) (k % 8) (omega arith) (omega arith)
    on false = bit_at-clear_line (bitmap (k / 8)) (m % 8) (k % 8) (omega arith) (omega arith)

-- The bits of both places follow the request, and all others stay.
both_places :
    (bitmap : ℕ → ℕ) (m r w : ℕ) (set : Bool)
    → m < 8192
    → (k : ℕ)
    → bitmap_bit (modify_msr_bitmap_bit (modify_msr_bitmap_bit bitmap r m set) w m set) k
      ≡ (if k == r * 8 + m || k == w * 8 + m then if set then 1 else 0 else bitmap_bit bitmap k)
both_places bitmap m r w set h k =
    modify_lem (modify_msr_bitmap_bit bitmap r m set) w m k set h
    ∙ ap (λ (x : ℕ). if k == w * 8 + m then if set then 1 else 0 else x)
        (modify_lem bitmap r m k set h)
    ∙ either (k == r * 8 + m) (k == w * 8 + m)
  where
    either :
        (a b : Bool)
        → (if b
            then if set then 1 else 0
            else (if a then if set then 1 else 0 else bitmap_bit bitmap k))
          ≡ (if a || b then if set then 1 else 0 else bitmap_bit bitmap k)
    either true true = refl
    either true false = refl
    either false true = refl
    either false false = refl

-- The bits of a register after the call.
abbrev pub Intercepts : (ℕ → ℕ) → ℕ → Bool → Exec (ℕ → ℕ) → Type 0
Intercepts bitmap msr set die = read_place msr ≡ none
Intercepts bitmap msr set (ret bitmap') =
    (r : ℕ) × (w : ℕ) × (read_place msr ≡ some r)
    × (write_place msr ≡ some w)
    × ((k : ℕ)
        → bitmap_bit bitmap' k
          ≡ (if k == r || k == w then if set then 1 else 0 else bitmap_bit bitmap k))

-- For a register that the processor has bits for, exactly its bit for reads and its bit for writes are
-- set or cleared; for any other register the machine halts.
pub vmx_set_intercept_msr_lem :
    (bitmap : ℕ → ℕ) (msr : ℕ) (set : Bool)
    → Intercepts bitmap msr set (vmx_set_intercept_msr bitmap msr set)
unfolding vmx_set_intercept_msr vmx_set_intercept_reg_rdmsr vmx_set_intercept_reg_wrmsr
vmx_set_intercept_msr_lem bitmap msr set = elim (Bool-cases (is_low_vmcs_msr msr)) [
  | inl low ↦
      let here : ltb msr 0x2000 ≡ true = ground arith in
      rw low (
        0 + msr,
        16384 + msr,
        rw here refl,
        rw here refl,
        both_places bitmap msr 0 2048 set (omega (arith, ltb→lt msr 0x2000 here)),
      )
  | inr not_low ↦
      let not_here : ltb msr 0x2000 ≡ false = ground arith in
      elim (Bool-cases (is_high_vmcs_msr msr)) [
        | inl high ↦
            let there : leb 0xc0000000 msr && ltb msr 0xc0002000 ≡ true = ground arith in
            let small : msr - 0xc0000000 < 8192 = ground arith in
            rw (not_low, high)
              (
                8192 + (msr - 0xc0000000),
                24576 + (msr - 0xc0000000),
                rw (not_here, there) refl,
                rw (not_here, there) refl,
                both_places bitmap (msr - 0xc0000000) 1024 3072 set small,
              )
        | inr not_high ↦
            let nowhere : leb 0xc0000000 msr && ltb msr 0xc0002000 ≡ false = ground arith in
            rw (not_low, not_high) (rw (not_here, nowhere) refl)
      ]
]
