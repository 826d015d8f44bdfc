-- ===== src/Keeper.antt =====
-- The keeper services under keeper/.
pub mod Checks
pub mod OtcBuy
pub mod CreatorFee
pub mod Numbers
pub mod Acquisition
pub mod Basket
pub mod Epoch
mod Tests
