-- ===== src/Rmm/Exit/Laws.antt =====
-- What is stated of the exits: their classes, apart from the code that handles them.
pub mod Hidden
pub mod Fatal
pub mod Returned
use tetd_test.Base.{
  ℕ, Bool, true, false, not, leb, ◌==◌, if◌then◌else◌, bit_and, Option, none, some,
}
use tetd_test.Rmm.Exit.{
  Machine, RecExit, Arch, Env, Handled, Exception, sync_lel, irq_lel, fiq_lel, serror_lel,
  unrecognized,
}

abbrev pub either : Bool → Bool → Bool
either a b = if a then true else b

abbrev pub both : Bool → Bool → Bool
both a b = if a then b else false

-- What the host is told, and whether it is entered.
abbrev pub told : Handled → Option (Bool × RecExit)
told none = none
told (some (ret, m)) = some (ret, m.rec_exit)

module _ (a : Arch) (env : Env) where
  -- The class of the exception.
  abbrev pub class : ℕ
  class = bit_and env.esr a.mask_ec

  -- A call of the realm, or its access to a system register.
  abbrev pub is_request : Exception → Bool
  is_request sync_lel = either (class == a.ec_smc) (class == a.ec_sysreg)
  is_request _ = false
