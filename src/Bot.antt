-- ===== src/Bot.antt =====
-- bot-baremetal: the threat levels, the instinct layer and the territory map of the bot.
pub mod History
pub mod Threat
pub mod Sha256
pub mod Dna
pub mod Instinct
pub mod Territory
pub mod Examples
