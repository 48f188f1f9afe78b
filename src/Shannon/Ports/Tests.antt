-- ===== src/Shannon/Ports/Tests.antt =====
-- Witnesses for the ports: a message between two nonces, and two pairs of states.
use espconnect.Common.{codes}
use espconnect.Shannon.{Cipher, new, set_key, key_pair}
use espconnect.Shannon.Windows
use espconnect.Shannon.RoundTrip.{AgreeButMbuf}
use espconnect.Shannon.Ports.{posix, port, fresh, by_nonce, by_mask, by_close}
use espconnect.Shannon.Ports.Keep.{nonce-AgreeButMbuf}
use espconnect.Shannon.Ports.Pairs.{key_pair-AgreeButMbuf}

keyed : Cipher
keyed = set_key new (codes "key")

first_nonce : Cipher
first_nonce = (port posix).nonce keyed (codes "0000")

masked : Cipher
masked = ((port posix).mask first_nonce (codes "a message")).0

nonce-AgreeButMbuf_example :
    AgreeButMbuf
      ((port posix).nonce ((port posix).close masked).0 (codes "0001"))
      ((port posix).nonce keyed (codes "0001"))
unfolding masked first_nonce
nonce-AgreeButMbuf_example =
    nonce-AgreeButMbuf posix keyed ((port posix).close masked).0 (codes "0001") (
      by_close masked
        (by_mask first_nonce (codes "a message") (by_nonce keyed (codes "0000") fresh)))

used : Cipher
used = ((port posix).mask keyed (codes "abc")).0

key_pair-AgreeButMbuf_example :
    AgreeButMbuf
      (key_pair new new (codes "one") (codes "two")).0
      (key_pair used keyed (codes "one") (codes "three")).0
    × AgreeButMbuf
        (key_pair new new (codes "one") (codes "two")).1
        (key_pair used keyed (codes "one") (codes "two")).1
    × AgreeButMbuf
        (Windows.key_pair new new (codes "one") (codes "two")).0
        (Windows.key_pair used keyed (codes "one") (codes "three")).0
    × AgreeButMbuf
        (Windows.key_pair new new (codes "one") (codes "two")).1
        (Windows.key_pair used keyed (codes "one") (codes "two")).1
key_pair-AgreeButMbuf_example =
    key_pair-AgreeButMbuf new used new keyed (codes "one") (codes "two") (codes "three")
