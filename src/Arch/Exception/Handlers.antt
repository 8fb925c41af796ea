-- ===== src/Arch/Exception/Handlers.antt =====
-- arch/x86/exception.c: what the handlers of the exceptions do. They print and panic, with interrupts disabled, so
-- that the ticks stand still.
use levos.Prelude.{ℕ, List, [], ◌∷◌, ◌≡◌}
use levos.Prelude.Text.{codes}
use levos.Prelude.Outcome.{Outcome, ok, panic, fault, hang, ◌>>=◌, >>=-eq-ok}
use levos.Kernel.Printk.{vprintk, printk, panic_text, panic_loop}
use levos.Arch.Exception.{
  ExcHandler, exc_divide_by_zero, exc_debug, exc_nmi, exc_brp, exc_overflow, exc_bound,
  exc_invopcode, exc_device_not_avail, exc_double_fault, exc_coproc, exc_invtss,
  exc_segment_not_present, exc_ssf, exc_gpf, exc_pf, exc_reserved,
}

-- The message of the `panic` of a handler.
unfoldable pub exc_message : ExcHandler → List ℕ
exc_message exc_divide_by_zero = codes "Divide by zero!\n"
exc_message exc_debug = codes "Debug!\n"
exc_message exc_nmi = codes "NMI\n"
exc_message exc_brp = codes "Breakpoint!\n"
exc_message exc_overflow = codes "Overflow!\n"
exc_message exc_bound = codes "Bound range exceeded.\n"
exc_message exc_invopcode = codes "Invalid opcode.\n"
exc_message exc_device_not_avail = codes "Device not available.\n"
exc_message exc_double_fault = codes "Double fault, halting.\n"
exc_message exc_coproc = codes "Coprocessor fault, halting.\n"
exc_message exc_invtss = codes "TSS invalid.\n"
exc_message exc_segment_not_present = codes "Segment not present.\n"
exc_message exc_ssf = codes "Stacksegment faulted.\n"
exc_message exc_gpf = codes "General protection fault"
exc_message exc_pf = codes "Unable to handle kernel paging request\n"
exc_message exc_reserved = codes "This shouldn't happen. Halted.\n"

hang_after : {A B : Type 0} (m : Outcome A) {b : B} → (m >>= λ _. hang) ≡ ok b → ⊥
hang_after (ok a) h = cc
hang_after panic h = cc
hang_after fault h = cc
hang_after hang h = cc

module _ {S : Type 0} (emit : ℕ → S → Outcome S) (string_at : ℕ → List ℕ) (ticks : ℕ) where
  -- The report of `exc_pf`: `comm` is the pointer to "kernel", and `cr0` the register that is read.
  unfoldable pub page_fault_report : ℕ → ℕ → ℕ → S → Outcome S
  page_fault_report comm cr0 errc s =
      printk emit string_at ticks (codes "------[ Page fault ]------\n") [] s
      >>= printk emit string_at ticks (codes "Process: %s\n") (comm ∷ [])
      >>= printk emit string_at ticks (codes "Linear address: 0x%x\n") (errc ∷ [])
      >>= printk emit string_at ticks (codes "Error code: 0x%x\n") (cr0 ∷ [])
      >>= printk emit string_at ticks (codes "------[ End  Trace ]------\n") []

  unfoldable pub report : ℕ → ℕ → ℕ → ExcHandler → S → Outcome S
  unfolding page_fault_report
  report comm cr0 errc exc_pf s = page_fault_report comm cr0 errc s
  report comm cr0 errc h s = ok s

  -- A handler, with the error code that the page fault is given. The name of the process is always "kernel",
  -- so no page fault is resolved.
  unfoldable pub handle : ℕ → ℕ → ℕ → ExcHandler → S → Outcome S
  handle comm cr0 errc h s =
      report comm cr0 errc h s >>= panic_loop emit string_at ticks (exc_message h) []

  panic_loop-ne-ok :
      (fmt ap : List ℕ) (s s' : S) → panic_loop emit string_at ticks fmt ap s ≡ ok s' → ⊥
  unfolding panic_loop
  panic_loop-ne-ok fmt ap s s' run =
      hang_after
        (printk emit string_at ticks (panic_text emit string_at) [] s
          >>= vprintk emit string_at fmt ap)
        run

  -- No handler returns.
  pub handle-ne-ok :
      (comm cr0 errc : ℕ) (h : ExcHandler) (s s' : S) → handle comm cr0 errc h s ≡ ok s' → ⊥
  unfolding handle
  handle-ne-ok comm cr0 errc h s s' run =
      let (s1, stuck, _) =
        >>=-eq-ok (panic_loop emit string_at ticks (exc_message h) []) s' (report comm cr0 errc h s)
          run in
      panic_loop-ne-ok (exc_message h) [] s1 s' stuck
