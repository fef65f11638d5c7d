-- ===== src/Rmm/Tests/Apart.antt =====
-- The sample monitor with a state for each granule.
use tetd_test.Base.{ℕ, refl, Bool, false, ◌==◌, if◌then◌else◌, arith}
use tetd_test.Rmm.Interface.{GranuleState, state_delegated, state_rd, state_rtt, World}
use tetd_test.Rmm.Discipline.Addresses.{state_index, IsApart}
use tetd_test.Rmm.Tests.Sample.{sample_layer, sample_world}

abbrev pub granule_state : ℕ → GranuleState
granule_state a =
    if a == 8192
    then state_rd
    else if a == 4096
    then state_rtt
    else if a == 20480
    then state_rtt
    else if a == 24576
    then state_rtt
    else if a == 28672
    then state_rtt
    else state_delegated

abbrev is_state : GranuleState → GranuleState → Bool
is_state s t = state_index s == state_index t

abbrev pub apart_world : World
apart_world = record sample_world {
  find_lock = λ a s. is_state (granule_state a) s;
  find_lock_two =
      λ a s b t. if is_state (granule_state a) s then is_state (granule_state b) t else false;
  state_of = granule_state;
}

pub sample-IsApart : IsApart sample_layer apart_world
sample-IsApart = record {
  found_law = λ a s h. ground (arith, h);
  found_two_law = λ a s b t h. (ground (arith, h), ground (arith, h));
  root_law = λ rd_addr h. refl;
  walk_law = λ rd_addr map_addr level h. ground arith;
  tree_law = λ rd_addr map_addr level h t. ground arith;
}
