-- ===== src/Rmm/Tests.antt =====
-- The theorems on rtt.c and handler.c at the monitor of Tests/Sample.
mod Apart
mod Sample
mod Filled
mod Exits
use tetd_test.Base.{
  ℕ, ◌+◌, ◌*◌, ◌/◌, ◌%◌, ◌^◌, ◌≡◌, refl, Bool, true, false, ◌==◌, ltb, if◌then◌else◌, arith, ap,
  ap₂, get_or, [], sym, ◌∙◌, some, none,
}
use tetd_test.Rmm.Interface.{
  state_ns, realm_new, Ripas, ripas_empty, ripas_ram, ripas_destroyed, no_change_destroyed, Table,
  Walk, Layer, World,
}
use tetd_test.Rmm.Outcome.{Res, result, table_after}
use tetd_test.Rmm.Entry.{
  View, unassigned, assigned, unassigned_host, assigned_host, to_table, views_unassigned,
  views_assigned, views_ripas, IsCoded,
}
use tetd_test.Rmm.Entry.Update.{
  set_ripas, takes_away, entry_after, invalidates, view_after, update_ripas-refines,
}
use tetd_test.Rmm.Validate.{validate_map_addr, validate_rtt_structure_cmds}
use tetd_test.Rmm.Structure.{smc_rtt_create, smc_rtt_fold, smc_rtt_destroy}
use tetd_test.Rmm.Unprotected.{
  smc_rtt_map_unprotected, smc_rtt_unmap_unprotected, smc_rtt_read_entry,
}
use tetd_test.Rmm.Data.{smc_data_create, smc_data_create_unknown, smc_data_destroy}
use tetd_test.Rmm.Ripas.{update_ripas, smc_rtt_init_ripas, smc_rtt_set_ripas}
use tetd_test.Rmm.Block.{smc_ipa_block, smc_ipa_unblock, blocked, unblocked}
use tetd_test.Rmm.Block.Rights.{entry, unblocked-blocked}
use tetd_test.Rmm.Discipline.{keeps, nothing}
use tetd_test.Rmm.Discipline.Addresses.{keeps_addresses}
use tetd_test.Rmm.Tests.Apart.{apart_world, sample-IsApart}
use tetd_test.Rmm.Discipline.Structure.{structure_calls-keep_rules}
use tetd_test.Rmm.Discipline.Pages.{page_calls-keep_rules}
use tetd_test.Rmm.Discipline.Ranges.{range_calls-keep_rules}
use tetd_test.Rmm.Discipline.Access.{block_calls-break_rules}
use tetd_test.Rmm.Quiet.{changes_on_success, own_status, res_status}
use tetd_test.Rmm.Quiet.Calls.{structure_calls-change_on_success, page_calls-change_on_success}
use tetd_test.Rmm.Refcount.{IsLive, IsCounted, IsCountedAfter, live_count}
use tetd_test.Rmm.Refcount.Structure.{structure_calls-keep_count}
use tetd_test.Rmm.Refcount.Pages.{host_page_calls-keep_count, data_calls-keep_count}
use tetd_test.Rmm.Total.{returns, calls-return}
use tetd_test.Rmm.Handler.{
  Others, Answer, Handler, f_40, handle_ns_smc, call_handler, handler_of, run_handler, check_slots,
  set_x0, rmi_fid, smc_handlers,
}
use tetd_test.Rmm.Handler.Dispatch.{with_hint, answer, handle_ns_smc-dispatches}
use tetd_test.Rmm.Handler.Known.{handle_ns_smc-known}
use tetd_test.Rmm.Outcome.{done, Outcome, rmi_success}
use tetd_test.Rmm.Scrub.{scrubs, delegated, in_use, calls-scrub}
use tetd_test.Rmm.Entry.Fold.Undone.{smc_rtt_fold-create}
use tetd_test.Rmm.Tests.Filled.{sample_fill, sample-IsFilled, sample_after, sample-IsFoundAfter}
use tetd_test.Rmm.Tests.Sample.{
  view, code, live, sample_layer, sample-IsCoded, sample-IsLive, sample-IsSound, sample_world,
  sample_res,
}

update_ripas-refines_example :
    (view_after
        (λ t. view t 3)
        (entry_after
          (code 5 40960)
          (update_ripas sample_layer (code 5 40960) 3 ripas_empty no_change_destroyed))
      ≡ set_ripas (view (code 5 40960) 3) ripas_empty no_change_destroyed)
    × ((if takes_away (view (code 5 40960) 3) ripas_empty
          then invalidates
              (update_ripas sample_layer (code 5 40960) 3 ripas_empty no_change_destroyed)
          else true)
        ≡ true)
update_ripas-refines_example =
    update_ripas-refines sample_layer view sample-IsCoded 3 (code 5 40960) ripas_empty
      no_change_destroyed tt

abbrev sample_walk : Walk
sample_walk = record { g_llt = 20480; index = 0; last_level = 3 }

structure_calls-keep_rules_example :
    let create = smc_rtt_create sample_layer apart_world 8192 12288 4096 3 in
    let fold = smc_rtt_fold sample_layer apart_world 8192 4096 3 sample_res in
    let destroy = smc_rtt_destroy sample_layer apart_world 8192 4096 3 sample_res in
    (keeps nothing create ≡ true)
    × (keeps nothing fold ≡ true)
    × (keeps nothing destroy ≡ true)
    × (keeps_addresses 4096 [] create ≡ true)
    × (keeps_addresses 4096 [] fold ≡ true)
    × (keeps_addresses 4096 [] destroy ≡ true)
structure_calls-keep_rules_example =
    structure_calls-keep_rules sample_layer apart_world sample-IsApart 8192 12288 4096 3 sample_res

page_calls-keep_rules_example :
    (keeps nothing (smc_rtt_map_unprotected sample_layer sample_world 8192 (2 ^ 31) 3 4096) ≡ true)
    × (keeps nothing
          (smc_rtt_unmap_unprotected sample_layer sample_world 8192 (2 ^ 31) 3 sample_res)
        ≡ true)
    × (keeps nothing (smc_rtt_read_entry sample_layer sample_world 8192 (2 ^ 31) 3 sample_res)
        ≡ true)
    × (keeps nothing (smc_data_create sample_layer sample_world 8192 12288 (2 ^ 31) 16384 1) ≡ true)
    × (keeps nothing (smc_data_create_unknown sample_layer sample_world 8192 12288 (2 ^ 31)) ≡ true)
    × (keeps nothing (smc_data_destroy sample_layer sample_world 8192 (2 ^ 31) sample_res) ≡ true)
page_calls-keep_rules_example =
    page_calls-keep_rules sample_layer sample_world 8192 12288 (2 ^ 31) 16384 1 3 4096 sample_res

range_calls-keep_rules_example :
    (keeps nothing (smc_rtt_init_ripas sample_layer sample_world 8192 0 8192 sample_res) ≡ true)
    × (keeps nothing (smc_rtt_set_ripas sample_layer sample_world 8192 16384 0 8192 sample_res)
        ≡ true)
range_calls-keep_rules_example =
    range_calls-keep_rules sample_layer sample_world 8192 16384 0 8192 sample_res

block_calls-break_rules_example :
    (keeps nothing (smc_ipa_block sample_layer sample_world 8192 4096) ≡ false)
    × (keeps nothing (smc_ipa_unblock sample_layer sample_world 8192 4096) ≡ false)
unfolding validate_map_addr
block_calls-break_rules_example =
    block_calls-break_rules sample_layer sample_world 8192 4096 refl refl

structure_calls-change_on_success_example :
    (changes_on_success own_status false (smc_rtt_create sample_layer sample_world 8192 12288 0 3)
      ≡ true)
    × (changes_on_success res_status false
          (smc_rtt_fold sample_layer sample_world 8192 0 3 sample_res)
        ≡ true)
    × (changes_on_success res_status false
          (smc_rtt_destroy sample_layer sample_world 8192 0 3 sample_res)
        ≡ true)
structure_calls-change_on_success_example =
    structure_calls-change_on_success sample_layer sample_world 8192 12288 0 3 sample_res

page_calls-change_on_success_example :
    (changes_on_success own_status false
        (smc_rtt_map_unprotected sample_layer sample_world 8192 4096 3 4096)
      ≡ true)
    × (changes_on_success res_status false
          (smc_rtt_unmap_unprotected sample_layer sample_world 8192 4096 3 sample_res)
        ≡ true)
    × (changes_on_success own_status false
          (smc_data_create sample_layer sample_world 8192 12288 4096 16384 1)
        ≡ true)
    × (changes_on_success own_status false
          (smc_data_create_unknown sample_layer sample_world 8192 12288 4096)
        ≡ true)
    × (changes_on_success res_status false
          (smc_data_destroy sample_layer sample_world 8192 4096 sample_res)
        ≡ true)
page_calls-change_on_success_example =
    page_calls-change_on_success sample_layer sample_world 8192 12288 4096 16384 1 3 4096 sample_res

unblocked-blocked_example :
    (blocked (entry 3 3 5 0 1) ≡ entry 3 0 5 1 1)
    × (unblocked (blocked (entry 3 3 5 0 1)) ≡ entry 3 3 5 0 1)
unblocked-blocked_example =
    unblocked-blocked 3 5 1 (omega arith) (omega arith) (omega arith) 3 0 (omega arith)
      (omega arith)

upper-IsCounted : (n : ℕ) → IsCounted sample_layer sample_world (λ e. live e n) 24576
unfolding live_count
upper-IsCounted n = refl

sample-IsCounted : (n : ℕ) → IsCounted sample_layer sample_world (λ e. live e n) 20480
unfolding live_count
sample-IsCounted n = refl

structure_calls-keep_count_example :
    IsCountedAfter sample_layer sample_world
      (λ e. live e 2)
      24576
      (smc_rtt_create sample_layer sample_world 8192 12288 4096 3)
    × IsCountedAfter sample_layer sample_world
        (λ e. live e 2)
        24576
        (smc_rtt_fold sample_layer sample_world 8192 4096 3 sample_res)
    × IsCountedAfter sample_layer sample_world
        (λ e. live e 2)
        24576
        (smc_rtt_destroy sample_layer sample_world 8192 4096 3 sample_res)
structure_calls-keep_count_example =
    structure_calls-keep_count sample_layer sample_world live sample-IsLive 8192 12288 4096 3
      sample_res (omega arith) (upper-IsCounted 2)

host_page_calls-keep_count_example :
    IsCountedAfter sample_layer sample_world
      (λ e. live e 3)
      20480
      (smc_rtt_map_unprotected sample_layer sample_world 8192 (2 ^ 31) 3 4096)
    × IsCountedAfter sample_layer sample_world
        (λ e. live e 3)
        20480
        (smc_rtt_unmap_unprotected sample_layer sample_world 8192 (2 ^ 31) 3 sample_res)
host_page_calls-keep_count_example =
    host_page_calls-keep_count sample_layer sample_world live sample-IsLive 8192 (2 ^ 31) 3 4096
      sample_res (omega arith) (sample-IsCounted 3)

data_calls-keep_count_example :
    IsCountedAfter sample_layer sample_world
      (λ e. live e 3)
      20480
      (smc_data_create sample_layer sample_world 8192 12288 4096 16384 1)
    × IsCountedAfter sample_layer sample_world
        (λ e. live e 3)
        20480
        (smc_data_create_unknown sample_layer sample_world 8192 12288 4096)
    × IsCountedAfter sample_layer sample_world
        (λ e. live e 3)
        20480
        (smc_data_destroy sample_layer sample_world 8192 4096 sample_res)
data_calls-keep_count_example =
    data_calls-keep_count sample_layer sample_world live sample-IsLive 8192 12288 4096 16384 1
      sample_res (omega arith) (sample-IsCounted 3)

calls-scrub_example :
    (scrubs delegated (smc_rtt_create sample_layer sample_world 8192 12288 4096 3) ≡ true)
    × (scrubs (in_use 0) (smc_rtt_fold sample_layer sample_world 8192 4096 3 sample_res) ≡ true)
    × (scrubs (in_use 0) (smc_rtt_destroy sample_layer sample_world 8192 4096 3 sample_res) ≡ true)
    × (scrubs delegated (smc_data_create sample_layer sample_world 8192 12288 4096 16384 1) ≡ true)
    × (scrubs delegated (smc_data_create_unknown sample_layer sample_world 8192 12288 4096) ≡ true)
    × (scrubs (in_use 0) (smc_data_destroy sample_layer sample_world 8192 4096 sample_res) ≡ true)
calls-scrub_example =
    calls-scrub sample_layer sample_world 8192 12288 12288 4096 16384 1 3 sample_res

abbrev sample_others : Others
sample_others = record {
  smc_version = λ a res. done res;
  smc_read_feature_register = λ a res. done res;
  smc_granule_delegate = λ a. done rmi_success;
  smc_granule_undelegate = λ a. done rmi_success;
  smc_realm_create = λ a b. done rmi_success;
  smc_realm_destroy = λ a. done rmi_success;
  smc_realm_activate = λ a. done rmi_success;
  smc_rec_create = λ a b c. done rmi_success;
  smc_rec_destroy = λ a. done rmi_success;
  smc_rec_enter = λ a b. done rmi_success;
  smc_psci_complete = λ a b c. done rmi_success;
  smc_rec_aux_count = λ a res. done res;
}

abbrev sample_answer : ℕ → Outcome Res → Answer
sample_answer = answer sample_layer sample_world sample_others false true

handle_ns_smc-dispatches_example :
    let handle : (ℕ → Answer) = λ number.
      handle_ns_smc sample_layer sample_world sample_others false
        (with_hint true (rmi_fid number))
        8192
        12288
        4096
        3
        0
        sample_res in
    (handle 3
      ≡ sample_answer 3
          (set_x0 sample_res (smc_data_create sample_layer sample_world 8192 12288 4096 3 0)))
    × (handle 4
        ≡ sample_answer 4
            (set_x0 sample_res (smc_data_create_unknown sample_layer sample_world 8192 12288 4096)))
    × (handle 5
        ≡ sample_answer 5 (smc_data_destroy sample_layer sample_world 8192 12288 sample_res))
    × (handle 13
        ≡ sample_answer 13
            (set_x0 sample_res (smc_rtt_create sample_layer sample_world 8192 12288 4096 3)))
    × (handle 14
        ≡ sample_answer 14 (smc_rtt_destroy sample_layer sample_world 8192 12288 4096 sample_res))
    × (handle 15
        ≡ sample_answer 15 (
            set_x0 sample_res
              (smc_rtt_map_unprotected sample_layer sample_world 8192 12288 4096 3)))
    × (handle 17
        ≡ sample_answer 17
            (smc_rtt_read_entry sample_layer sample_world 8192 12288 4096 sample_res))
    × (handle 18
        ≡ sample_answer 18
            (smc_rtt_unmap_unprotected sample_layer sample_world 8192 12288 4096 sample_res))
    × (handle 22
        ≡ sample_answer 22 (smc_rtt_fold sample_layer sample_world 8192 12288 4096 sample_res))
    × (handle 24
        ≡ sample_answer 24
            (smc_rtt_init_ripas sample_layer sample_world 8192 12288 4096 sample_res))
    × (handle 25
        ≡ sample_answer 25
            (smc_rtt_set_ripas sample_layer sample_world 8192 12288 4096 3 sample_res))
handle_ns_smc-dispatches_example =
    handle_ns_smc-dispatches sample_layer sample_world sample_others false true 8192 12288 4096 3 0
      sample_res

handle_ns_smc-known_example :
    (number : ℕ) × (h : Handler) × (with_hint true (rmi_fid 13) ≡ with_hint true (rmi_fid number))
    × (get_or (smc_handlers sample_layer sample_world sample_others) number none ≡ some h)
    × (check_slots [] (
          run_handler
            (f_40 (smc_rtt_create sample_layer sample_world))
            8192
            12288
            4096
            3
            0
            sample_res)
        ≡ check_slots [] (run_handler h 8192 12288 4096 3 0 sample_res))
unfolding handle_ns_smc call_handler handler_of
handle_ns_smc-known_example =
    handle_ns_smc-known sample_layer sample_world sample_others false (with_hint true (rmi_fid 13))
      8192 12288 4096 3 0 sample_res true false
      (check_slots [] (
        run_handler (f_40 (smc_rtt_create sample_layer sample_world)) 8192 12288 4096 3 0
          sample_res))
      (omega arith) refl

calls-return_example :
    (returns (smc_rtt_create sample_layer sample_world 8192 12288 4096 3) ≡ true)
    × (returns (smc_rtt_fold sample_layer sample_world 8192 4096 3 sample_res) ≡ true)
    × (returns (smc_rtt_destroy sample_layer sample_world 8192 4096 3 sample_res) ≡ true)
    × (returns (smc_rtt_read_entry sample_layer sample_world 8192 4096 3 sample_res) ≡ true)
    × (returns (smc_data_destroy sample_layer sample_world 8192 4096 sample_res) ≡ true)
calls-return_example =
    calls-return sample_layer sample_world sample-IsSound 8192 12288 4096 3 sample_res

smc_rtt_fold-create_example :
    let fold = smc_rtt_fold sample_layer sample_after 8192 0 3 sample_res in
    (result (smc_rtt_create sample_layer sample_world 8192 12288 0 3) ≡ some rmi_success)
    × (result fold ≡ some (record sample_res { x0 = rmi_success; x1 = 12288 }))
    × (view (table_after (sample_after.table 24576) fold 0) 2 ≡ view 0 2)
unfolding validate_rtt_structure_cmds validate_map_addr
smc_rtt_fold-create_example =
    smc_rtt_fold-create sample_layer view sample_fill sample-IsCoded sample-IsFilled sample_world
      sample_after 8192 12288 0 3 sample_res refl refl refl refl refl refl refl sample-IsFoundAfter
