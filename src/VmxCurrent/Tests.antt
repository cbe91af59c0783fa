-- ===== src/VmxCurrent/Tests.antt =====
-- The bookkeeping at work: virtual processor 7 is made current on processor 1.
use hyve_mind.Prelude.{refl, true, none, some}
use hyve_mind.VmxCurrent.{
  vmcs_ls_clear, VmxState, update, vmx_load_vcpu, vmx_make_vcpu_current, Reach, at_start,
  makes_current,
}
use hyve_mind.VmxCurrent.Coherent.{IsCoherent, Reach-IsCoherent}

abbrev at_boot : VmxState
at_boot = record {
  active_cpu = λ i. none;
  launch_state = λ i. vmcs_ls_clear;
  curr_vcpu = λ i. none;
}

abbrev seven_on_one : VmxState
seven_on_one = record at_boot {
  active_cpu = update (update at_boot.active_cpu 7 (some 1)) 7 (some 1);
  curr_vcpu = update at_boot.curr_vcpu 1 (some 7);
}

seven_on_one-Reach : Reach seven_on_one
unfolding vmx_make_vcpu_current vmx_load_vcpu
seven_on_one-Reach =
    makes_current at_boot seven_on_one true true 1 7 (at_start (λ i. vmcs_ls_clear)) refl

Reach-IsCoherent_example : IsCoherent seven_on_one
Reach-IsCoherent_example = Reach-IsCoherent seven_on_one seven_on_one-Reach
