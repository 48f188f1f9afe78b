-- ===== src/Shannon/Bytewise.antt =====
-- The specification of `platform_shannon_encrypt`: one byte after the other, whatever the calls. The
-- code takes whole words where it can and keeps what is left of a word for the next call.
pub mod Words
pub mod Streams
use espconnect.Common.{
  ◌==◌, Bool-cases, inl, inr, ◌⊎◌, ℕ, ◌+◌, ◌<◌, ◌-◌, ◌*◌, ◌/◌, ◌%◌, ◌^◌, ◌≡◌, refl, sym, ap, ◌∙◌,
  Bool, true, false, [], ◌∷◌, ◌++◌, append_assoc, bit_xor, All, All-append, List, IsByte, Bytes, u8,
  u32, arith, if◌then◌else◌, byte-xor, xor_disjoint, zero-xor, length, suc,
}
use espconnect.Shannon.{
  Cipher, byte2word, word2byte, cycle, macfunc, crcfunc, pad_byte, mac_byte, encrypt_byte,
  encrypt_word, fill, partial, blocks, crypt, encrypt, finish, mix_crc, initkonst,
}
use espconnect.Shannon.Valid.{byte2word-eq, word2byte-byte2word}
use espconnect.Shannon.Loops.{fill-stop, fill-step}

-- A fresh key word where the last one is used up.
pub ready : Cipher → Cipher
ready s = if s.nbuf == 0 then record (cycle s) { mbuf = 0; nbuf = 32 } else s

-- The MAC takes the word that a byte completes.
pub collect : Cipher → Cipher
collect s = if s.nbuf == 0 then macfunc s s.mbuf else s

pub step : Cipher → ℕ → Cipher × ℕ
step s b = let s' = ready s in (collect (mac_byte s' b), bit_xor b (pad_byte s'))

pub bytewise : Cipher → Bytes → Cipher × Bytes
bytewise s [] = (s, [])
bytewise s (b ∷ bs) = let (s', c) = step s b in let (s'', out) = bytewise s' bs in (s'', c ∷ out)

-- At a word boundary what was collected is not read again.
pub settled : Cipher → Cipher
settled s = if s.nbuf == 0 then record s { mbuf = 0 } else s

-- Two runs with one output and one state, but for what is not read again.
pub record Same (p q : Cipher × Bytes) : Type 0 where
  pub same_bytes : p.1 ≡ q.1
  pub same_state : settled p.0 ≡ settled q.0

pub bytewise-append :
    (s : Cipher) (xs ys : Bytes)
    → bytewise s (xs ++ ys)
      ≡ ((bytewise (bytewise s xs).0 ys).0, (bytewise s xs).1 ++ (bytewise (bytewise s xs).0 ys).1)
unfolding bytewise
bytewise-append s [] ys = refl
bytewise-append s (x ∷ xs) ys =
    ap (λ r. (r.0, (step s x).1 ∷ r.1)) (bytewise-append (step s x).0 xs ys)

ready-settled : (s : Cipher) → ready (settled s) ≡ ready s
unfolding ready settled
ready-settled s = elim (Bool-cases (s.nbuf == 0)) [
  | inl e ↦ rw e (rw e (unfold cycle in refl))
  | inr e ↦ rw e (rw e refl)
]

step-settled : (s : Cipher) (b : ℕ) → step (settled s) b ≡ step s b
unfolding step
step-settled s b = rw (ready-settled s)

pub bytewise-settled :
    (s t : Cipher) (bs : Bytes) → settled s ≡ settled t → Same (bytewise s bs) (bytewise t bs)
unfolding bytewise
bytewise-settled s t [] e = record { same_bytes = refl; same_state = e }
bytewise-settled s t (b ∷ bs) e =
    let one : step s b ≡ step t b =
      sym (step-settled s b) ∙ ap (λ u. step u b) e ∙ step-settled t b in
    record {
      same_bytes = ap (λ r. r.1 ∷ (bytewise r.0 bs).1) one;
      same_state = ap (λ r. settled (bytewise r.0 bs).0) one;
    }

pub length-bytewise : (s : Cipher) (bs : Bytes) → length (bytewise s bs).1 ≡ length bs
unfolding bytewise
length-bytewise s [] = refl
length-bytewise s (b ∷ bs) = ap suc (length-bytewise (step s b).0 bs)
