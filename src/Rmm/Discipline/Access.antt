-- ===== src/Rmm/Discipline/Access.antt =====
-- `smc_ipa_block` and `smc_ipa_unblock` unlock the realm twice.
use tetd_test.Base.{ℕ, ◌≡◌, true, false, arith}
use tetd_test.Rmm.Interface.{Layer, World, state_rd}
use tetd_test.Rmm.Validate.{validate_map_addr}
use tetd_test.Rmm.Discipline.{keeps, nothing}
use tetd_test.Rmm.Block.{smc_ipa_block, smc_ipa_unblock, change_access}

module _ (l : Layer) (w : World) where
  -- When the realm is found and the address is valid, both `smc_ipa_block` and `smc_ipa_unblock`
  -- break the rules of `next` on locks, buffers and entries.
  pub block_calls-break_rules :
      (rd_addr map_addr : ℕ)
      → w.find_lock rd_addr state_rd ≡ true
      → validate_map_addr l map_addr l.page_level (w.rd rd_addr) ≡ true
      → (keeps nothing (smc_ipa_block l w rd_addr map_addr) ≡ false)
        × (keeps nothing (smc_ipa_unblock l w rd_addr map_addr) ≡ false)
  unfolding keeps smc_ipa_block smc_ipa_unblock change_access
  block_calls-break_rules rd_addr map_addr found valid = ground arith
