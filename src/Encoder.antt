-- ===== src/Encoder.antt =====
-- Package encoder (internal/encoder): the command lines for ffmpeg, and the checks that skip a file.
pub mod Shlex
pub mod Probe
pub mod Video
pub mod Audio
