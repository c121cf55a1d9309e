-- ===== src/Services/Telegram.antt =====
-- The Telegram channel: services/telegram_messages.py, telegram_relevance.py and telegram_notifier.py.
pub mod Messages
pub mod Relevance
pub mod Recovery
pub mod Superseded
pub mod Decision
pub mod Cycle
pub mod Run
