-- ===== src/Transcode.antt =====
-- The ffmpeg step, backend/app/transcode: the profiles' arguments and one run with its fallback.
pub mod Profiles
pub mod Runner
mod Tests
