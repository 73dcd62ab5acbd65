-- ===== src/AtChannel.antt =====
-- The channel to the modem as src/at_channel speaks it: the response of a command (`Response`) and the
-- dispatcher of unsolicited results (`Urc`).
pub mod Response
pub mod Urc
pub mod Uart
