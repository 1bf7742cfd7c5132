-- ===== src/SpeakerPulseaudio.antt =====
-- toolkit_enckit/source/speaker_pulseaudio: audio files played through PulseAudio.
pub mod AudioStream
pub mod Manager
