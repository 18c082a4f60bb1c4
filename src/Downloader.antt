-- ===== src/Downloader.antt =====
-- Package downloader (internal/downloader): the downloads that yt-dlp makes, and its cookies.
pub mod Names
pub mod Cookies
pub mod Ytdlp
pub mod Manager
