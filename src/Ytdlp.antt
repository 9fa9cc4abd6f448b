-- ===== src/Ytdlp.antt =====
-- The yt-dlp side, backend/app/ytdlp: options, stream types, the format selector, the command
-- line and the cookie file.
pub mod Options
pub mod Stream
pub mod Formats
pub mod Command
pub mod Cookies
pub mod Errors
pub mod Progress
pub mod Runner
pub mod Tests
