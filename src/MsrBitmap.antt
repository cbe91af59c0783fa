-- ===== src/MsrBitmap.antt =====
-- The bitmap of arch/x64/vmx/vmx.c that says which registers a guest reads and writes without an exit.
--
-- The bitmap is its bytes from its base address on.
pub mod Intercepts
mod Tests
use hyve_mind.Prelude.{
  leb, ◌==◌, if◌then◌else◌, set, Exec, ret, die, ◌>>=◌, ℕ, ◌+◌, ◌-◌, ◌/◌, ◌%◌, ◌^◌, bit_and, bit_or,
  Bool, ◌&&◌,
}
use hyve_mind.Vpic.Commands.{not8, u8_lshift_one}

abbrev pub is_low_vmcs_msr : ℕ → Bool
is_low_vmcs_msr x = leb 0 x && leb x 0x1fff

abbrev pub is_high_vmcs_msr : ℕ → Bool
is_high_vmcs_msr x = leb 0xc0000000 x && leb x 0xc0001fff

abbrev pub vmcs_high_read_msr_offset : ℕ
vmcs_high_read_msr_offset = 1024

abbrev pub vmcs_low_write_msr_offset : ℕ
vmcs_low_write_msr_offset = 2048

abbrev pub vmcs_high_write_msr_offset : ℕ
vmcs_high_write_msr_offset = 3072

-- `__modify_msr_bitmap_bit`, on the bitmap from `offset` on.
pub modify_msr_bitmap_bit : (ℕ → ℕ) → ℕ → ℕ → Bool → ℕ → ℕ
modify_msr_bitmap_bit bitmap offset sanitized_msr set i =
    let byte_pos = sanitized_msr / 8 % 2 ^ 32 in
    let bit_pos = sanitized_msr % 8 in
    if i == offset + byte_pos
    then if set
      then bit_or (bitmap i) (u8_lshift_one bit_pos)
      else bit_and (bitmap i) (not8 (u8_lshift_one bit_pos))
    else bitmap i

pub vmx_set_intercept_reg_rdmsr : (ℕ → ℕ) → ℕ → Bool → Exec (ℕ → ℕ)
vmx_set_intercept_reg_rdmsr bitmap msr intercept =
    if is_low_vmcs_msr msr
    then ret (modify_msr_bitmap_bit bitmap 0 msr intercept)
    else if is_high_vmcs_msr msr
    then ret (modify_msr_bitmap_bit bitmap vmcs_high_read_msr_offset (msr - 0xc0000000) intercept)
    else die

pub vmx_set_intercept_reg_wrmsr : (ℕ → ℕ) → ℕ → Bool → Exec (ℕ → ℕ)
vmx_set_intercept_reg_wrmsr bitmap msr intercept =
    if is_low_vmcs_msr msr
    then ret (modify_msr_bitmap_bit bitmap vmcs_low_write_msr_offset msr intercept)
    else if is_high_vmcs_msr msr
    then ret (modify_msr_bitmap_bit bitmap vmcs_high_write_msr_offset (msr - 0xc0000000) intercept)
    else die

pub vmx_set_intercept_msr : (ℕ → ℕ) → ℕ → Bool → Exec (ℕ → ℕ)
vmx_set_intercept_msr bitmap msr intercept =
    vmx_set_intercept_reg_rdmsr bitmap msr intercept >>= λ bitmap'.
    vmx_set_intercept_reg_wrmsr bitmap' msr intercept
