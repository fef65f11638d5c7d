-- ===== src/Rmm/Structure.antt =====
-- `smc_rtt_create`, `smc_rtt_fold` and `smc_rtt_destroy`: the tables below the root.
mod Create
mod Fold
mod Destroy
unfoldable pub use Create.*
unfoldable pub use Fold.*
unfoldable pub use Destroy.*
