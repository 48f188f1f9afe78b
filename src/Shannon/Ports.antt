-- ===== src/Shannon/Ports.antt =====
-- The ports of the cipher as one interface: what they keep of a key while packets go through them.
pub mod Keep
pub mod Pairs
mod Tests
use espconnect.Common.{Bytes}
use espconnect.Shannon.{Cipher}
use espconnect.Shannon.{set_nonce, encrypt, decrypt, finish}
use espconnect.Shannon.Esp32
use espconnect.Shannon.Windows

-- The operations of a port on a state that has its key.
pub record Port : Type 0 where
  pub nonce : Cipher → Bytes → Cipher
  pub mask : Cipher → Bytes → Cipher × Bytes
  pub unmask : Cipher → Bytes → Cipher × Bytes
  pub close : Cipher → Cipher × Bytes

pub data Os : Type 0 where
  posix : Os
  esp32 : Os
  windows : Os

unfoldable pub port : Os → Port
port posix = record { nonce = set_nonce; mask = encrypt; unmask = decrypt; close = finish }
port esp32 = record {
  nonce = Esp32.set_nonce;
  mask = Esp32.encrypt;
  unmask = Esp32.decrypt;
  close = Esp32.finish;
}
port windows = record {
  nonce = Windows.set_nonce;
  mask = Windows.encrypt;
  unmask = Windows.decrypt;
  close = Windows.finish;
}

-- The states that the calls of the port reach from a state.
pub data Used (p : Port) (s : Cipher) : Cipher → Type 0 where
  fresh : Used p s s
  by_nonce : (t : Cipher) (n : Bytes) → Used p s t → Used p s (p.nonce t n)
  by_mask : (t : Cipher) (bs : Bytes) → Used p s t → Used p s ((p.mask t bs).0)
  by_unmask : (t : Cipher) (bs : Bytes) → Used p s t → Used p s ((p.unmask t bs).0)
  by_close : (t : Cipher) → Used p s t → Used p s ((p.close t).0)
