-- ===== src/Player/Audio/Kept.antt =====
-- The wait for an AudioKey leaves the session connected, or not, as it was.
use espconnect.Common.{
  ℕ, zero, suc, refl, ◌∙◌, [], Bytes, length, leb, ◌==◌, ◌&&◌, ◌||◌, Bool-cases, inl, inr,
}
use espconnect.Mercury.{Outcome, ok, fail, hang, M, send, recv}
use espconnect.Mercury.Login.Kept.{Keeps, send-keeps, recv-keeps}
use espconnect.Player.Audio.{key_request, after_recv, wait_key, wait_after, get_audio_key}

after_recv-keeps :
    (next : M Bytes) (r : Outcome (ℕ × Bytes)) → Keeps next → Keeps (after_recv next r)
unfolding after_recv
after_recv-keeps next (fail n) h s = h s
after_recv-keeps next hang h s = refl
after_recv-keeps next (ok (cmd, payload)) h s = elim (Bool-cases (cmd == 0x00 || cmd == 0x04)) [
  | inl e ↦ rw e (h (send 0x4a [] s).1 ∙ send-keeps 0x4a [] s)
  | inr e ↦ rw e (elim (Bool-cases (cmd == 0x0D && leb 16 (length payload))) [
    | inl f ↦ rw f refl
    | inr f ↦ rw f (elim (Bool-cases (cmd == 0x0E)) [ inl g ↦ rw g refl | inr g ↦ rw g (h s) ])
  ])
]

wait_key-keeps : (left : ℕ) → Keeps (wait_key left)
unfolding wait_key
wait_key-keeps zero s = refl
wait_key-keeps (suc left) s =
    after_recv-keeps (wait_key left) (recv 256 s).0 (wait_key-keeps left) (recv 256 s).1
    ∙ recv-keeps 256 s

wait_after-keeps : (r : Outcome (Unit {0})) → Keeps (wait_after r)
unfolding wait_after
wait_after-keeps (ok u) s = wait_key-keeps 15 s
wait_after-keeps (fail n) s = refl
wait_after-keeps hang s = refl

pub get_audio_key-keeps : (track_id file_id : Bytes) → Keeps (get_audio_key track_id file_id)
unfolding get_audio_key
get_audio_key-keeps track_id file_id s =
    let asked = send 0x0C (key_request track_id file_id) s in
    wait_after-keeps asked.0 asked.1 ∙ send-keeps 0x0C (key_request track_id file_id) s
