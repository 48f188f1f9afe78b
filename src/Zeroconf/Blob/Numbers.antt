-- ===== src/Zeroconf/Blob/Numbers.antt =====
-- read_varint of src/zeroconf.c on varints, which mercury.c reads with another loop.
use espconnect.Common.{
  ℕ, ◌+◌, ◌*◌, ◌^◌, ◌≤◌, ◌<◌, ◌≡◌, ◌∷◌, ◌++◌, and_127, and_128, or_comm, or_disjoint, length, drop,
  Bytes, arith,
}
use espconnect.Proto.Varint.{IsVarint, last, more, byte_at-drop}
use espconnect.Zeroconf.Blob.{read_varint}

-- read_varint of zeroconf.c reads a varint below 2^14 that stands at its position inside the block,
-- and moves behind it.
pub read_varint-IsVarint :
    {v : ℕ} {ys : Bytes} (xs rest : Bytes) (pos n : ℕ)
    → IsVarint v ys
    → v < 2 ^ 14
    → drop pos xs ≡ ys ++ rest
    → pos + length ys ≤ n
    → read_varint xs pos n ≡ (v, pos + length ys)
unfolding read_varint
read_varint-IsVarint xs rest pos n (last v low) h e fits =
    let here = byte_at-drop xs pos v rest e in ground (arith, here.0, and_128 v)
read_varint-IsVarint xs rest pos n (more v q g _ split low pos' (last _ small)) h e fits =
    let here = byte_at-drop xs pos (g + 128) (q ∷ rest) e in
    let next = byte_at-drop xs (pos + 1) q rest here.1 in
    ground (
      arith,
      here.0,
      next.0,
      and_127 (g + 128),
      and_128 (g + 128),
      or_comm g (q * 2 ^ 7),
      or_disjoint 7 q g low,
    )
read_varint-IsVarint xs rest pos n (more v q g _ split low pos' (more _ r k ys split' low' pos'' t))
      h e fits =
    absurd (omega arith)
