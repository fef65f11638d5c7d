-- ===== src/Lib.antt =====
-- Verification of two programs of tetd: the trusted signing program tetd_x86/s4, which signs a hash
-- with RSA-3072 inside a protected guest, and the realm monitor tetd_cca/rmm/runtime: its calls on
-- translation tables, rmi/rtt.c, by which a host builds and changes the memory of a realm, their
-- dispatch, core/handler.c, and its handling of the exits of a realm, core/exit.c.
--
-- The signing program has two parts. tetd_x86/s4/bignum.c (with bignum.h) is a library of natural
-- numbers in arrays of 97 words of 32 bits. tetd_x86/s4/sign_main.c computes a signature on it:
-- Montgomery multiplication, exponentiation modulo the two primes of the key with a table of
-- squares, and the recombination of the two halves by the Chinese remainder theorem. The monitor
-- does not use it: the two programs run in different machines, and share only the helpers of this
-- library.
--
-- The host's side of the monitor is tetd_cca/linux/arch/arm64/kvm/rme.c, by which KVM makes and takes
-- away the tables of a realm; it meets the monitor only in the calls and their codes.
--
-- Files:
--   Base          the shared helpers. Base/Tests: Boolean tests of numbers. Base/Lists: arrays as
--                 lists. Base/Arith: remainders and powers. Base/Bits: `&`, `|` and `^` of numbers.
--                 Base/Strings: texts as character codes.
--   Bignum        `struct bn` and its constants. Bignum/Value: the number of an array (`val`), what the
--                 C type guarantees of an array (`IsBn`), and the bound `capacity` = 2 ^ 3104.
--   Bignum/Init   bignum_init, bignum_assign, bignum_from_int, bignum_to_int.
--   Bignum/Write  what a write to one word does to the number.
--   Bignum/Text   bignum_from_string, with Text/Laws.
--   Bignum/Add    bignum_add, bignum_inc, bignum_sub, bignum_dec, with Add/Laws and Add/Difference.
--   Bignum/Compare   bignum_cmp and bignum_is_zero.
--   Bignum/Shift  all shifts, with Shift/Words, Shift/Up and Shift/Down.
--   Bignum/Mul    bignum_mul.
--   Bignum/Bitwise   bignum_and, bignum_or, bignum_xor, bignum_getbit, bignum_numbits, with
--                 Bitwise/Laws and Bitwise/Access.
--   Bignum/Div    bignum_div, bignum_divmod, bignum_mod, with Div/Up and Div/Down for its two loops.
--   Bignum/Pow    bignum_pow.
--   Rsa/Mont      montMult, with Mont/Round for one round.
--   Rsa/Exp       modExp, init_lut, modExpLUT, with Exp/Form, Exp/Power and Exp/Table.
--   Rsa/Bytes     bytes_to_bn and bn_to_bytes, with Bytes/Laws and Bytes/Read.
--   Rsa/Sign      rsa_sign, with Sign/Crt for the recombination, and Sign/Laws and Sign/Unique for
--                 the whole.
--   Rsa/Key       the constants of the key, with Key/Loaded for the numbers they load as.
--   Rmm/Interface    what rtt.c uses of the rest of the monitor, as parameters: `Layer` for its constants
--                 and functions without state, `World` for what its granules hold when a call comes.
--   Rmm/Outcome   the course of a call as the sequence of its effects, and struct smc_result.
--   Rmm/Validate  the validate functions.
--   Rmm/Structure smc_rtt_create, smc_rtt_fold, smc_rtt_destroy.
--   Rmm/Unprotected  map_unmap_ns, smc_rtt_map_unprotected, smc_rtt_unmap_unprotected,
--                 smc_rtt_read_entry.
--   Rmm/Data      data_create, smc_data_create, smc_data_create_unknown, smc_data_destroy.
--   Rmm/Ripas     update_ripas, smc_rtt_init_ripas, rtt_set_ripas_range, smc_rtt_set_ripas, with
--                 Ripas/Range for the entries that a range call changes.
--   Rmm/Block     smc_ipa_block and smc_ipa_unblock, with Block/Rights for the entries they make.
--   Rmm/Discipline   the rules on locks, buffers and broken entries, as an automaton on the effects, with
--                 the calls in Discipline/Structure, Pages, Ranges and Access; in Discipline/Addresses the
--                 same for the addresses of locks and invalidations, with Discipline/Apart.
--   Rmm/Quiet     calls that fail, with Quiet/Calls.
--   Rmm/Refcount  reference counts, with Refcount/Sum, Structure and Pages.
--   Rmm/Scrub     granules that are given back.
--   Rmm/Total     calls that reach no failing assertion.
--   Rmm/Entry     the meaning of entries, with Entry/Update for update_ripas, and Entry/Fold for a fold
--                 after a creation: Fold/Created, Fold/Folded and Fold/Undone.
--   Rmm/Handler   tetd_cca/rmm/runtime/core/handler.c, the entry point of the host: handle_ns_smc and its
--                 table, with Handler/Slots for the slots, Handler/Dispatch and Handler/Known,
--                 and Handler/Trap for handle_rmm_trap.
--   Rmm/Exit      tetd_cca/rmm/runtime/core/exit.c, what happens when a processor leaves a realm: here the
--                 state and the parameters; Exit/Aborts for aborts and SError, Exit/Rsi for the calls of
--                 the realm (handle_realm_rsi), Exit/Handle for handle_realm_exit; Exit/Laws with
--                 Laws/Hidden, Laws/Fatal and Laws/Returned.
--   Kvm           rme.c: the calls to the monitor and the allocator, and what has happened (`Trace`).
--   Kvm/Pages     __alloc_delegated_page, free_delegated_page, realm_create_rtt_levels and
--                 ensure_spare_page.
--   Kvm/Ranges    find_map_level, realm_tear_down_rtt_level, realm_unmap_unprotected and
--                 realm_destroy_undelegate_range.
--   Kvm/Fold      realm_fold_rtt_level, with its course in Kvm/Hangs.
--   Kvm/Ripas     realm_init_ipa_state, kvm_init_ipa_range_realm, realm_set_ipa_state,
--                 kvm_realm_unmap_range and kvm_realm_destroy_rtts.
--   Kvm/Invariant what each round keeps is kept by the loops, and in Invariant/Calls by the calls.
--                 Kvm/Ledger with Ledger/Steps, and Kvm/Frees, are two cases of it.
--   Kvm/Within    the range of realm_tear_down_rtt_level. Kvm/Level: find_map_level.
--   Bignum/Tests, Rsa/Tests, Rmm/Tests and Kvm/Tests   the theorems at concrete numbers and a small monitor,
--                 which is in Rmm/Tests/Sample, Filled and Apart; Rmm/Tests/Exits for exit.c.
--
-- How the model stands to the code: an array is a list of words, the least significant first, and a
-- function that writes an array returns the array it leaves. Words and intermediate results wrap
-- where the C types do (`u32` for DTYPE, `u64` for DTYPE_TMP). Loops over an array are recursions on
-- the array or on the index; the two loops of bignum_div and the loop of bignum_pow, whose rounds
-- depend on the data, run on fuel, and `none` means that the fuel ran out. 3105 rounds are enough
-- for bignum_div, one more than the number of bits of an array, and the exponent for bignum_pow.
-- bignum_from_string gives `none` where an assertion on the length of its text fails, and init_lut
-- and modExpLUT where they would go past the 1537 entries (LUT_SIZE) of the static table. The
-- functions that the code calls with one array in two places read each word before they write it, so
-- the model has no store.
--
-- A call of rtt.c is a function of `World` and its arguments whose value is an `Outcome`: its
-- effects in order (a lock, a mapped buffer, a write to an entry, an invalidation, a change of a
-- count or a state), then the registers it returns, or `panic` where an assertion fails. What a call
-- reads of the table of its walk after a write is the table with the write. Walks, entry tests and
-- entry constructors are parameters, since their code is not in the repository; the theorems that
-- need to know what they do have it as the laws `IsCoded`, `IsFilled`, `IsLive`, `IsSound` and
-- `IsApart`. A panic counts as keeping every rule. The rules of `next` tell locks apart by the
-- variable of the code that holds the granule, and take an invalidation of any address for that of
-- the entry; the rules of `follow` are on the addresses. Error codes that carry a level are made by
-- the parameter `pack_return_code`.
-- The loops of the range calls run over the entries that are left in the table, so they need no
-- fuel.
--
-- A function of exit.c passes on a `Machine`: the REC and its exit as far as exit.c touches them, the
-- program counter of the realm, and the exceptions that are injected into it. `none` is an assertion
-- that fails. The numbers of the architecture are the parameter `Arch`; the system registers, the
-- SIMD switch, the trap of system registers and the handlers of the calls of a realm are `Env`, since
-- their code is not in the repository.
--
-- A function of rme.c passes on a `Realm`: its spare page, and the calls to the monitor and the
-- allocator so far with their replies. The reply to a call is the parameter `answer` of all that has
-- happened, so a theorem for every `answer` is one for every behaviour of the monitor and the
-- allocator. A loop is a recursion on fuel over its rounds; `no_fuel` means that it has not ended, and
-- what holds of the trace then holds in the midst of the loop.
--
-- Not modelled: the assertions on null pointers; printing; bignum_to_string and bignum_isqrt; and
-- the hash, which assembly code computes, and which is an argument. `z - z` and `carry - carry`,
-- with which the code clears a variable that it has not set, are taken as 0. The arguments of
-- rsa_sign in the model are the key and the hash; Rsa/Key gives it the key of the constants. Of
-- rtt.c: the printed lines of smc_ipa_block and smc_ipa_unblock, the measurement values, and the
-- assertions that a mapped buffer is not null. Of handler.c: the log, and the assertions on the SIMD
-- state and on the slots when a call comes in. Of exit.c: the log of RSI calls and printed lines,
-- and the SIMD save around an RSI call of the build with RMM_FPU_USE_AT_REL2. Of rme.c: locks,
-- warnings, the allocation flags and the memory cache, and the functions on the creation of realms
-- and RECs, on mapping and population, and on configuration.
pub mod Base
pub mod Bignum
pub mod Rsa
pub mod Rmm
pub mod Kvm
