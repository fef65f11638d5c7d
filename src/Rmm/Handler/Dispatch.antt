-- ===== src/Rmm/Handler/Dispatch.antt =====
-- Which call a function identifier stands for.
use tetd_test.Base.{ℕ, ◌+◌, ◌≡◌, ap, ◌∙◌, Bool, true, false, if◌then◌else◌, []}
use tetd_test.Rmm.Interface.{Layer, World}
use tetd_test.Rmm.Outcome.{Outcome, Res}
use tetd_test.Rmm.Discipline.{keeps, nothing}
use tetd_test.Rmm.Discipline.Structure.{create-keeps, fold-keeps, destroy-keeps}
use tetd_test.Rmm.Discipline.Pages.{page_calls-keep_rules}
use tetd_test.Rmm.Discipline.Ranges.{range_calls-keep_rules}
use tetd_test.Rmm.Structure.{smc_rtt_create, smc_rtt_fold, smc_rtt_destroy}
use tetd_test.Rmm.Unprotected.{
  smc_rtt_map_unprotected, smc_rtt_unmap_unprotected, smc_rtt_read_entry,
}
use tetd_test.Rmm.Data.{smc_data_create, smc_data_create_unknown, smc_data_destroy}
use tetd_test.Rmm.Ripas.{smc_rtt_init_ripas, smc_rtt_set_ripas}
use tetd_test.Rmm.Handler.{
  Others, Answer, handled, handle_ns_smc, call_handler, handler_of, check_slots, run_handler,
  set_x0, rmi_fid, rmi_handler_needs_fpu, smc_sve_hint,
}
use tetd_test.Rmm.Handler.Slots.{check_slots-keeps, keeps-set_x0}

-- A function identifier with the SVE hint or without.
abbrev pub with_hint : Bool → ℕ → ℕ
with_hint hint fid = if hint then fid + smc_sve_hint else fid

module _ (l : Layer) (w : World) (others : Others) (use_at_rel2 : Bool) where
  abbrev pub answer : (hint : Bool) (number : ℕ) → Outcome Res → Answer
  answer hint number o = handled hint (rmi_handler_needs_fpu use_at_rel2 (rmi_fid number)) o

  with_result :
      (hint : Bool) (number : ℕ) (res : Res) (o : Outcome ℕ)
      → keeps nothing o ≡ true
      → answer hint number (check_slots [] (set_x0 res o)) ≡ answer hint number (set_x0 res o)
  with_result hint number res o h =
      ap (answer hint number)
        (check_slots-keeps nothing (set_x0 res o) (keeps-set_x0 nothing res o ∙ h))

  with_registers :
      (hint : Bool) (number : ℕ) (o : Outcome Res)
      → keeps nothing o ≡ true
      → answer hint number (check_slots [] o) ≡ answer hint number o
  with_registers hint number o h = ap (answer hint number) (check_slots-keeps nothing o h)

  -- For the eleven function identifiers of the calls of rtt.c on tables, pages and RIPAS, with
  -- the SVE hint or without, `handle_ns_smc` does what that call does on the arguments in order
  -- and puts its result into the registers: the assertion behind the call, that no buffer slot is
  -- in use, holds.
  pub handle_ns_smc-dispatches :
      (hint : Bool) (a b c d e : ℕ) (res : Res)
      → let handle : (ℕ → Answer) = λ number.
        handle_ns_smc l w others use_at_rel2 (with_hint hint (rmi_fid number)) a b c d e res in
        (handle 3 ≡ answer hint 3 (set_x0 res (smc_data_create l w a b c d e)))
        × (handle 4 ≡ answer hint 4 (set_x0 res (smc_data_create_unknown l w a b c)))
        × (handle 5 ≡ answer hint 5 (smc_data_destroy l w a b res))
        × (handle 13 ≡ answer hint 13 (set_x0 res (smc_rtt_create l w a b c d)))
        × (handle 14 ≡ answer hint 14 (smc_rtt_destroy l w a b c res))
        × (handle 15 ≡ answer hint 15 (set_x0 res (smc_rtt_map_unprotected l w a b c d)))
        × (handle 17 ≡ answer hint 17 (smc_rtt_read_entry l w a b c res))
        × (handle 18 ≡ answer hint 18 (smc_rtt_unmap_unprotected l w a b c res))
        × (handle 22 ≡ answer hint 22 (smc_rtt_fold l w a b c res))
        × (handle 24 ≡ answer hint 24 (smc_rtt_init_ripas l w a b c res))
        × (handle 25 ≡ answer hint 25 (smc_rtt_set_ripas l w a b c d res))
  unfolding handle_ns_smc call_handler handler_of run_handler
  handle_ns_smc-dispatches true a b c d e res =
      let pg = page_calls-keep_rules l w a b c d e 0 0 res in
      let destroy = page_calls-keep_rules l w a 0 b 0 0 0 0 res in
      let ns = page_calls-keep_rules l w a 0 b 0 0 c d res in
      let init = range_calls-keep_rules l w a 0 b c res in
      let set = range_calls-keep_rules l w a b c d res in
      (
        with_result true 3 res (smc_data_create l w a b c d e) (pg.3),
        with_result true 4 res (smc_data_create_unknown l w a b c) (pg.4),
        with_registers true 5 (smc_data_destroy l w a b res) (destroy.5),
        with_result true 13 res (smc_rtt_create l w a b c d) (create-keeps l w a b c d),
        with_registers true 14 (smc_rtt_destroy l w a b c res) (destroy-keeps l w a b c res),
        with_result true 15 res (smc_rtt_map_unprotected l w a b c d) (ns.0),
        with_registers true 17 (smc_rtt_read_entry l w a b c res) (ns.2),
        with_registers true 18 (smc_rtt_unmap_unprotected l w a b c res) (ns.1),
        with_registers true 22 (smc_rtt_fold l w a b c res) (fold-keeps l w a b c res),
        with_registers true 24 (smc_rtt_init_ripas l w a b c res) (init.0),
        with_registers true 25 (smc_rtt_set_ripas l w a b c d res) (set.1),
      )
  handle_ns_smc-dispatches false a b c d e res =
      let pg = page_calls-keep_rules l w a b c d e 0 0 res in
      let destroy = page_calls-keep_rules l w a 0 b 0 0 0 0 res in
      let ns = page_calls-keep_rules l w a 0 b 0 0 c d res in
      let init = range_calls-keep_rules l w a 0 b c res in
      let set = range_calls-keep_rules l w a b c d res in
      (
        with_result false 3 res (smc_data_create l w a b c d e) (pg.3),
        with_result false 4 res (smc_data_create_unknown l w a b c) (pg.4),
        with_registers false 5 (smc_data_destroy l w a b res) (destroy.5),
        with_result false 13 res (smc_rtt_create l w a b c d) (create-keeps l w a b c d),
        with_registers false 14 (smc_rtt_destroy l w a b c res) (destroy-keeps l w a b c res),
        with_result false 15 res (smc_rtt_map_unprotected l w a b c d) (ns.0),
        with_registers false 17 (smc_rtt_read_entry l w a b c res) (ns.2),
        with_registers false 18 (smc_rtt_unmap_unprotected l w a b c res) (ns.1),
        with_registers false 22 (smc_rtt_fold l w a b c res) (fold-keeps l w a b c res),
        with_registers false 24 (smc_rtt_init_ripas l w a b c res) (init.0),
        with_registers false 25 (smc_rtt_set_ripas l w a b c d res) (set.1),
      )
