-- ===== src/Lib.antt =====
-- Verification of HyveMind, a type-1 hypervisor for x86-64.
--
-- The hypervisor boots through the limine protocol, hands out physical memory through a bitmap of
-- page frames, multiplexes the local timer of each processor, and runs guests whose interrupts come
-- from a virtual pair of 8259 controllers. This library models the parts with logic of their own;
-- privileged instructions and memory-mapped devices stay outside.
--
-- Vpic models hypervisor/src/arch/x64/vm/vpic.c, with the types of include/vm/vpic.h and the command
-- tests of include/vm/vpic_defs.h in Vpic.Commands. A chip is the struct __vpic, whose union of
-- sub_device_map and sub_device_id is one byte and whose parent pointer is a flag; a controller is
-- the pair of chips. Each operation runs under the lock and is one function: vpic_write with its
-- handlers, vpic_read, vpic_raise_external_irq, vpic_has_pending_irq, vpic_get_pending_irq. Code that
-- halts the machine is `die`. A raised line is an integer, as guest_hwirq_t has no declaration.
-- Vpic.Registers bounds the registers, Vpic.Init follows the
-- initialisation sequences, Vpic.Priority, Vpic.Lines and Vpic.Irq the delivery, Vpic.Raise the
-- requests, Vpic.Eoi the end of an interrupt, and Vpic.Reach the states that a guest can bring about.
--
-- CString models hypervisor/src/string.c on a memory that maps addresses to bytes; CString.Memory is
-- about blocks, CString.Search about strings that end in a NUL, CString.Number about strtoul. A block
-- does not lie across the end of the address space, and the allocation of strdup_nt is a parameter.
--
-- Printf models hypervisor/src/printf.c: the number conversions write into the memory of CString, and
-- the format loop gives the calls of the console in order. 64 rounds print every uint64_t.
--
-- PfAlloc models hypervisor/src/pf_alloc.c: the bitmap byte by byte, the search of __get_pages as a
-- function on its loop variables, the counters as wrapping words and the hint. The search takes fuel;
-- more than two rounds of the bitmap are enough, since a streak may outlast the first round but ends
-- at the end of the bitmap. Physical addresses lie below 2 ^ 52. PfAlloc.Boot is the set-up at boot
-- and PfAlloc.Pages the functions that hand out mapped pages, but for those that zero them.
--
-- Halloc models the bins of hypervisor/src/halloc.c and its halloc_internal.h, and which of them
-- serves a request. The free lists in memory stay outside.
--
-- PhysMm models hypervisor/src/phys_mm.c, the conversion of the boot loader's memory map and its
-- summary.
--
-- Timer models hypervisor/src/timer.c with the programming of the deadline of arch/x64/timer.c and
-- arch/x64/apic.c: the min-heap in its array, add_timer and irq_timer_handler. The actions of timers
-- are a parameter, since the repository defines none, and the readings of the time stamp counter are a
-- list. Timer.Heap, Timer.Order and Timer.Contents are about the heap, Timer.Handler about adding
-- timers, and Timer.Interrupt about the handler. The sifting loops take as
-- many rounds as the index or the last index, which halving and doubling never need in full.
-- Timer.Frequency is the computation of the counter's frequency.
--
-- Radix models hypervisor/src/lib/radix-tree.c: a node holds its prefix and its children, a string is
-- a list of characters, and the nodes are allocated from a count that may run out. The insertion takes
-- fuel, and one more than the length of the key is enough. Radix.Strings is about prefixes,
-- Radix.Lookup, Radix.Add and Radix.Nodes about the nodes, Radix.Mapping about the tree as a map.
--
-- VmxPolicy models hypervisor/src/arch/x64/vmx/policy.c with the control vectors of
-- arch/x64/include/vmx/vmcs.h as raw numbers. The instruction that reads a register is a parameter,
-- and the capabilities of the processor are passed along. VmxPolicy.Controls holds the sanitizing
-- functions, the capabilities and the default policy, VmxPolicy.Validation the validation;
-- VmxPolicy.Reserved, VmxPolicy.Parts, VmxPolicy.Capabilities, VmxPolicy.Valid, VmxPolicy.Configured
-- and VmxPolicy.Policies are about them. That a register allows what it demands is a hypothesis.
--
-- LinkedList models hypervisor/src/include/lib/list.h on two functions, the pointers that each address
-- stores. LinkedList.Chain says which entries they spell out, LinkedList.Operations and
-- LinkedList.Apart what the operations do to their own list and to others.
--
-- Sched models hypervisor/src/sched.c and include/cpu_topology.h: the queue of one processor on those
-- lists, __schedule, where a launched task is a parameter, and the choice of a processor.
-- Sched.Queues, Sched.Rounds, Sched.Fairness and Sched.Mask are about them. The recursion in the
-- choice of a processor takes fuel, and two are enough.
--
-- VmConfig models hypervisor/src/vm_config.c and include/vm_config_defs.h: VmConfig.Values reads the
-- values with strtoul of CString, VmConfig.Parser is the state machine over the tokens of the file
-- with the keys in a tree of Radix, and VmConfig.Config makes the configurations.
-- VmConfig.Induction, VmConfig.Requests, VmConfig.Devices, VmConfig.Keys, VmConfig.Files,
-- VmConfig.Booting, VmConfig.Cmdline and VmConfig.Sizes are about them. The tokens are taken as a list
-- of what seek_next_token finds, copies of strings do not fail, and a string that is read at NULL is an
-- outcome of its own.
--
-- MemFile models hypervisor/src/lib/mem_file.c on the memory that a file starts in; its loops take as
-- many rounds as there are characters up to the next line break. MemFile.Line is about one line.
--
-- MsrBitmap and VmxCurrent model parts of hypervisor/src/arch/x64/vmx/vmx.c: the bitmap of intercepted
-- registers, with MsrBitmap.Intercepts about its bits, and which virtual processor is current where,
-- as steps of all processors one after another, with VmxCurrent.Coherent about what holds after them.
-- The answers of vmptrld are arguments of the steps.
--
-- Prelude holds the shared tests on native numbers, lemmas on lists, tables and bits, and the type of
-- code that may halt.
--
-- Not modelled: locks and the order of processors, the freeing of kernel objects, console and device
-- access, pages that are zeroed, since the allocator's metadata lies in the same memory, the Linux
-- loader, the page tables and the VMX instructions.
pub mod Prelude
pub mod Vpic
pub mod CString
pub mod Printf
pub mod PfAlloc
pub mod Timer
pub mod PhysMm
pub mod Halloc
pub mod Radix
pub mod VmxPolicy
pub mod LinkedList
pub mod Sched
pub mod VmConfig
pub mod MemFile
pub mod MsrBitmap
pub mod VmxCurrent
