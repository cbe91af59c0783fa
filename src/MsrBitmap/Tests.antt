-- ===== src/MsrBitmap/Tests.antt =====
-- The bitmap at work.
use hyve_mind.Prelude.{ℕ, false}
use hyve_mind.MsrBitmap.{vmx_set_intercept_msr}
use hyve_mind.MsrBitmap.Intercepts.{Intercepts, vmx_set_intercept_msr_lem}

-- Every access causes an exit.
abbrev all_intercepted : ℕ → ℕ
all_intercepted i = 255

vmx_set_intercept_msr_lem_example :
    Intercepts all_intercepted 0xc0000080 false
      (vmx_set_intercept_msr all_intercepted 0xc0000080 false)
vmx_set_intercept_msr_lem_example = vmx_set_intercept_msr_lem all_intercepted 0xc0000080 false
