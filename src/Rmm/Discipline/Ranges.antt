-- ===== src/Rmm/Discipline/Ranges.antt =====
-- The calls on ranges of entries keep the rules.
use tetd_test.Base.{◌-◌, refl, ℕ, zero, suc, ◌+◌, ◌%◌, ◌^◌, ◌≡◌, true, arith, [], ◌∷◌}
use tetd_test.Rmm.Interface.{Layer, World, Table, Ripas, ChangeDestroyed, Walk}
use tetd_test.Rmm.Outcome.{
  rmi_error_rtt, Outcome, Res, g_llt, g_rd, g_rec, slot_rtt, slot_rd, slot_rec,
}
use tetd_test.Rmm.Discipline.{Hold, keeps, nothing, whole}
use tetd_test.Rmm.Ripas.{
  smc_rtt_init_ripas, init_loop, smc_rtt_set_ripas, set_ripas_at, rtt_set_ripas_range, set_loop,
  init_out_unmap_llt, after_range, progress,
}

-- What is held in the two loops.
abbrev in_init : Hold
in_init = record {
  locks = g_llt ∷ g_rd ∷ [];
  buffers = (slot_rtt, g_llt) ∷ (slot_rd, g_rd) ∷ [];
  entry = whole;
}

abbrev in_set : Hold
in_set = record {
  locks = g_llt ∷ g_rec ∷ g_rd ∷ [];
  buffers = (slot_rtt, g_llt) ∷ (slot_rd, g_rd) ∷ (slot_rec, g_rec) ∷ [];
  entry = whole;
}

module _ (l : Layer) where
  init_loop-keeps :
      (table : Table) (map_size top rounds index addr : ℕ) (finish : ℕ → Outcome Res)
      → ((a : ℕ) → keeps in_init (finish a) ≡ true)
      → keeps in_init (init_loop l table map_size top rounds index addr finish) ≡ true
  unfolding keeps init_loop
  init_loop-keeps table map_size top zero index addr finish h = h addr
  init_loop-keeps table map_size top (suc rounds) index addr finish h = ground (
    arith,
    h addr,
    init_loop-keeps table map_size top rounds (index + 1) ((addr + map_size) % 2 ^ 64) finish h,
  )

  set_loop-keeps :
      (table : Table) (level map_size top : ℕ) (wanted : Ripas) (change : ChangeDestroyed)
      (rounds index addr : ℕ) (finish : ℕ → Outcome Res)
      → ((a : ℕ) → keeps in_set (finish a) ≡ true)
      → keeps in_set (set_loop l table level map_size top wanted change rounds index addr finish)
        ≡ true
  unfolding keeps set_loop
  set_loop-keeps table level map_size top wanted change zero index addr finish h = h addr
  set_loop-keeps table level map_size top wanted change (suc rounds) index addr finish h = ground (
    arith,
    h addr,
    set_loop-keeps table level map_size top wanted change rounds (index + 1)
        ((addr + map_size) % 2 ^ 64) finish h,
  )

module _ (l : Layer) (w : World) where
  smc_rtt_init_ripas-keeps :
      (rd_addr base top : ℕ) (res : Res)
      → keeps nothing (smc_rtt_init_ripas l w rd_addr base top res) ≡ true
  unfolding keeps smc_rtt_init_ripas
  smc_rtt_init_ripas-keeps rd_addr base top res =
      let rd = w.rd rd_addr in
      let wi = w.walk rd.g_rtt rd.starting_level rd.ipa_bits base l.page_level in
      ground (
        arith,
        init_loop-keeps l (w.table wi.g_llt) (l.map_size wi.last_level) top
            (l.entries_per_table - wi.index) wi.index base
            (λ addr. init_out_unmap_llt l w (progress l res base wi.last_level addr)) (λ a. refl),
      )

  after_range-keeps : (res : Res) → keeps in_set (after_range l w res) ≡ true
  unfolding keeps
  after_range-keeps res = ground arith

  range-keeps :
      (table : Table) (base top : ℕ) (wi : Walk) (wanted : Ripas) (change : ChangeDestroyed)
      (res : Res)
      → keeps in_set (rtt_set_ripas_range l table base top wi wanted change res (after_range l w))
        ≡ true
  unfolding rtt_set_ripas_range
  range-keeps table base top wi wanted change res = ground (
    arith,
    after_range-keeps (record res { x0 = l.pack_return_code rmi_error_rtt wi.last_level }),
    set_loop-keeps l table wi.last_level (l.map_size wi.last_level) top wanted change
        (l.entries_per_table - wi.index) wi.index base
        (λ addr. after_range l w (progress l res base wi.last_level addr))
        (λ a. after_range-keeps _),
  )

  smc_rtt_set_ripas-keeps :
      (rd_addr rec_addr base top : ℕ) (res : Res)
      → keeps nothing (smc_rtt_set_ripas l w rd_addr rec_addr base top res) ≡ true
  unfolding keeps smc_rtt_set_ripas set_ripas_at
  smc_rtt_set_ripas-keeps rd_addr rec_addr base top res =
      let rd = w.rd rd_addr in
      let wi = w.walk rd.g_rtt rd.starting_level rd.ipa_bits base l.page_level in
      let rec = w.rec rec_addr in
      ground (arith, range-keeps (w.table wi.g_llt) base top wi rec.ripas_val rec.change res)

  -- `smc_rtt_init_ripas` and `smc_rtt_set_ripas` keep the rules of `next` on locks, buffers and
  -- entries on every path, however many entries their loops go through, up to an assertion that
  -- fails if one does, and hold nothing when they return.
  pub range_calls-keep_rules :
      (rd_addr rec_addr base top : ℕ) (res : Res)
      → (keeps nothing (smc_rtt_init_ripas l w rd_addr base top res) ≡ true)
        × (keeps nothing (smc_rtt_set_ripas l w rd_addr rec_addr base top res) ≡ true)
  range_calls-keep_rules rd_addr rec_addr base top res = (
    smc_rtt_init_ripas-keeps rd_addr base top res,
    smc_rtt_set_ripas-keeps rd_addr rec_addr base top res,
  )
