-- ===== src/Rmm/Validate.antt =====
-- The checks of the arguments: `validate_*`.
use tetd_test.Base.{ℕ, ◌+◌, ◌-◌, ◌^◌, Bool, true, false, ltb, leb, if◌then◌else◌}
use tetd_test.Rmm.Interface.{Layer, Rd, RealmState, realm_new, realm_other}
use tetd_test.Rmm.Outcome.{rmi_success, rmi_error_input, rmi_error_realm}

-- `(long)x < y` and `(long)x > y`, for the 64 bits `x` and a small `y` that is not negative.
abbrev pub long_lt : ℕ → ℕ → Bool
long_lt x y = if leb (2 ^ 63) x then true else ltb x y

abbrev pub long_gt : ℕ → ℕ → Bool
long_gt x y = if leb (2 ^ 63) x then false else ltb y x

-- `get_rd_state_locked(rd) == REALM_STATE_NEW`
abbrev pub is_new : RealmState → Bool
is_new realm_new = true
is_new realm_other = false

module _ (l : Layer) where
  -- `validate_map_addr`
  unfoldable pub validate_map_addr : (map_addr level : ℕ) → Rd → Bool
  validate_map_addr map_addr level rd =
      if ltb map_addr rd.ipa_size then l.addr_is_level_aligned map_addr level else false

  -- `validate_rtt_structure_cmds`
  unfoldable pub validate_rtt_structure_cmds : (map_addr level : ℕ) → Rd → Bool
  validate_rtt_structure_cmds map_addr level rd =
      let min_level = rd.starting_level + 1 in
      if long_lt level min_level
      then false
      else if long_gt level l.page_level
      then false
      else validate_map_addr map_addr (level - 1) rd

  -- `validate_rtt_map_cmds`
  unfoldable pub validate_rtt_map_cmds : (map_addr level : ℕ) → Rd → Bool
  validate_rtt_map_cmds map_addr level rd =
      if long_lt level l.min_block_level
      then false
      else if long_gt level l.page_level
      then false
      else validate_map_addr map_addr level rd

  -- `validate_rtt_entry_cmds`
  unfoldable pub validate_rtt_entry_cmds : (map_addr level : ℕ) → Rd → Bool
  validate_rtt_entry_cmds map_addr level rd =
      if long_lt level rd.starting_level
      then false
      else if long_gt level l.page_level
      then false
      else validate_map_addr map_addr level rd

  -- `validate_data_create_unknown`
  unfoldable pub validate_data_create_unknown : ℕ → Rd → ℕ
  validate_data_create_unknown map_addr rd =
      if rd.in_par map_addr
      then if validate_map_addr map_addr l.page_level rd then rmi_success else rmi_error_input
      else rmi_error_input

  -- `validate_data_create`
  unfoldable pub validate_data_create : ℕ → Rd → ℕ
  validate_data_create map_addr rd =
      if is_new rd.state then validate_data_create_unknown map_addr rd else rmi_error_realm
