-- ===== src/Rsa.antt =====
-- s4/sign_main.c: the RSA signature on top of the big numbers.
pub mod Mont
pub mod Exp
pub mod Bytes
pub mod Sign
pub mod Key
mod Tests
