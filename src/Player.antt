-- ===== src/Player.antt =====
-- The facade src/esp_spotify.c with what it calls for audio: src/decrypt.c and the AudioKey request of
-- src/spclient.c. Allocation never fails in the model. The HTTP client is an argument.

pub mod Audio
pub mod Facade
