-- ===== src/Prelude/Bits.antt =====
-- The binary digits of a number. `2 ^ k` is `1 << k`, `a / 2 ^ k` is `a >> k`, and `a % 2 ^ k` keeps
-- the low k bits.
mod Steps
mod Digits
mod Masks
pub use Steps.*
pub use Digits.*
pub use Masks.*
