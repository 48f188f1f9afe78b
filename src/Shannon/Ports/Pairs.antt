-- ===== src/Shannon/Ports/Pairs.antt =====
-- platform_shannon_key_pair: what its two results take from its arguments.
use espconnect.Common.{ℕ, ◌≡◌, refl, ap, sym, ◌∙◌, Bytes, take}
use espconnect.Shannon.{
  Cipher, at, cycle, addkey, load_key, save_state, reload_state, genkonst, init_state, initkonst,
  pair_up, key_pair,
}
use espconnect.Shannon.Windows
use espconnect.Shannon.RoundTrip.{AgreeButMbuf}
use espconnect.Shannon.Fresh.{Alike, Loaded, load_key-Loaded, load_key-init, fields-AgreeButMbuf}
use espconnect.Shannon.Ports.Keep.{posix_clock}

module _ (start : Cipher → Cipher) (k : ℕ)
    (starts : (s t : Cipher) → Alike (start s) (start t)) where
  -- The first key, and the state that the second key is loaded on.
  abbrev first : Cipher → Bytes → Cipher
  first s key = load_key cycle addkey (start s) (take 32 key)

  abbrev second : Cipher → Bytes → Bytes → Cipher
  second s key key' = load_key cycle addkey (genkonst (save_state (first s key))) (take 32 key')

  first-Loaded :
      (s t : Cipher) (key : Bytes) → Loaded cycle addkey posix_clock (first s key) (first t key)
  first-Loaded s t key =
      load_key-Loaded cycle addkey posix_clock (start s) (start t) (take 32 key) (starts s t)

  second-Loaded :
      (s t : Cipher) (key key' : Bytes)
      → Loaded cycle addkey posix_clock (second s key key') (second t key key')
  unfolding genkonst save_state
  second-Loaded s t key key' =
      let l = (first-Loaded s t key).alike in
      load_key-Loaded cycle addkey posix_clock (genkonst (save_state (first s key)))
        (genkonst (save_state (first t key))) (take 32 key')
        (record { r = l.r; konst = ap (λ r. at r 0) l.r })

  -- The registers that are reloaded for the sending state are those behind the first key.
  second-init : (s : Cipher) (key key' : Bytes) → (second s key key').init_r ≡ (first s key).r
  unfolding genkonst save_state
  second-init s key key' =
      load_key-init cycle addkey posix_clock (genkonst (save_state (first s key))) (take 32 key')

  abbrev back : Cipher → Bytes → Bytes → Cipher
  back s key key' = genkonst (record (reload_state (second s key key')) { konst = k })

  back-Alike : (s t : Cipher) (key key' key'' : Bytes) → Alike (back s key key') (back t key key'')
  unfolding genkonst reload_state
  back-Alike s t key key' key'' =
      let e =
        second-init s key key' ∙ (first-Loaded s t key).alike.r ∙ sym (second-init t key key'') in
      record { r = e; konst = ap (λ r. at r 0) e }

  pub sending-AgreeButMbuf :
      (s t rcv rcv' : Cipher) (key key' key'' : Bytes)
      → AgreeButMbuf (pair_up start k s rcv key key').0 (pair_up start k t rcv' key key'').0
  unfolding pair_up save_state
  sending-AgreeButMbuf s t rcv rcv' key key' key'' =
      let l =
        load_key-Loaded cycle addkey posix_clock (back s key key') (back t key key'') (take 32 key)
          (back-Alike s t key key' key'') in
      fields-AgreeButMbuf (pair_up start k s rcv key key').0 (pair_up start k t rcv' key key'').0
        l.alike.r l.crc l.alike.r l.alike.konst l.sbuf refl

  pub receiving-AgreeButMbuf :
      (s t rcv rcv' : Cipher) (key key' : Bytes)
      → AgreeButMbuf (pair_up start k s rcv key key').1 (pair_up start k t rcv' key key').1
  unfolding pair_up save_state
  receiving-AgreeButMbuf s t rcv rcv' key key' =
      let l = second-Loaded s t key key' in
      fields-AgreeButMbuf (pair_up start k s rcv key key').1 (pair_up start k t rcv' key key').1
        l.alike.r l.crc l.alike.r l.alike.konst l.sbuf refl

-- On POSIX and on Windows, platform_shannon_key_pair on two distinct states makes, but for mbuf,
-- the same sending state whatever the receiving key and both states were, and the same receiving
-- state for the same two keys whatever both states were.
pub key_pair-AgreeButMbuf :
    (s t rcv rcv' : Cipher) (key key' key'' : Bytes)
    → AgreeButMbuf (key_pair s rcv key key').0 (key_pair t rcv' key key'').0
      × AgreeButMbuf (key_pair s rcv key key').1 (key_pair t rcv' key key').1
      × AgreeButMbuf (Windows.key_pair s rcv key key').0 (Windows.key_pair t rcv' key key'').0
      × AgreeButMbuf (Windows.key_pair s rcv key key').1 (Windows.key_pair t rcv' key key').1
unfolding key_pair Windows.key_pair init_state Windows.init_state
key_pair-AgreeButMbuf s t rcv rcv' key key' key'' = (
  sending-AgreeButMbuf init_state initkonst (λ a b. record { r = refl; konst = refl }) s t rcv rcv'
      key key' key'',
  receiving-AgreeButMbuf init_state initkonst (λ a b. record { r = refl; konst = refl }) s t rcv
      rcv' key key',
  sending-AgreeButMbuf Windows.init_state Windows.initkonst
      (λ a b. record { r = refl; konst = refl }) s t rcv rcv' key key' key'',
  receiving-AgreeButMbuf Windows.init_state Windows.initkonst
      (λ a b. record { r = refl; konst = refl }) s t rcv rcv' key key',
)
