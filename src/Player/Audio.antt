-- ===== src/Player/Audio.antt =====
-- src/decrypt.c, and spclient_get_audio_key of src/spclient.c. A pointer is never null here, except
-- that a missing buffer is the empty one, which has the same result.
pub mod Kept
use espconnect.Common.{
  ℕ, zero, suc, [], ◌∷◌, ◌++◌, Option, none, some, length, take, Bytes, be32, leb, ◌==◌, ◌&&◌, ◌||◌,
  if◌then◌else◌,
}
use espconnect.Crypto.{Crypto}
use espconnect.Mercury.{Outcome, ok, fail, hang, M, send, recv}

pub decrypt_derive_iv : Crypto → Bytes → Bytes
decrypt_derive_iv crypto file_id = take 16 (crypto.sha1 (b's' ∷ take 20 file_id))

-- decrypt_audio: the buffer after it, or the result -1.
pub decrypt_audio : Crypto → Bytes → Bytes → Bytes → Option Bytes
decrypt_audio crypto [] audio_key file_id = none
decrypt_audio crypto (b ∷ bs) audio_key file_id =
    some (crypto.aes_ctr128 audio_key (decrypt_derive_iv crypto file_id) (b ∷ bs))

-- The 38 bytes of the request.
pub key_request : Bytes → Bytes → Bytes
key_request track_id file_id =
    take 16 file_id ++ (take 16 track_id ++ (be32 1 ++ (0x00 ∷ 0x00 ∷ [])))

-- One round of the loop that waits for the key: a packet that is not received, and one that is no
-- answer, lead to the next round.
pub after_recv : M Bytes → Outcome (ℕ × Bytes) → M Bytes
after_recv next (fail n) s = next s
after_recv next hang s = (hang, s)
after_recv next (ok (cmd, payload)) s =
    let ponged = next (send 0x4a [] s).1 in
    let later = next s in
    if cmd == 0x00 || cmd == 0x04
    then ponged
    else if cmd == 0x0D && leb 16 (length payload)
    then (ok (take 16 payload), s)
    else if cmd == 0x0E
    then (fail 3, s)
    else later

-- for (i = 0; i < 15; i++), and the timeout.
pub wait_key : ℕ → M Bytes
wait_key zero s = (fail 4, s)
wait_key (suc left) s = let (r, s') = recv 256 s in after_recv (wait_key left) r s'

pub wait_after : Outcome (Unit {0}) → M Bytes
wait_after (ok u) s = wait_key 15 s
wait_after (fail n) s = (fail 2, s)
wait_after hang s = (hang, s)

pub get_audio_key : Bytes → Bytes → M Bytes
get_audio_key track_id file_id s =
    let (r, s') = send 0x0C (key_request track_id file_id) s in wait_after r s'
