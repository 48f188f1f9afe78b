-- ===== src/Shannon/Bytewise/Streams.antt =====
-- `platform_shannon_encrypt` from any state, against the specification, and messages in parts.
use espconnect.Common.{
  ◌==◌, Bool-cases, inl, inr, ◌⊎◌, ℕ, ◌≡◌, refl, sym, ap, ◌∙◌, true, false, [], ◌∷◌, ◌++◌, bit_xor,
  All, All-append, set, List, IsByte, Bytes, arith, if◌then◌else◌,
}
use espconnect.Shannon.{
  Cipher, word2byte, cycle, macfunc, crcfunc, encrypt_byte, fill, crypt, encrypt, finish, mix_crc,
  initkonst, at, keyp,
}
use espconnect.Shannon.Loops.{fill-stop, fill-step}
use espconnect.Shannon.Bytewise.{
  ready, collect, step, bytewise, settled, Same, bytewise-append, bytewise-settled,
}
use espconnect.Shannon.Bytewise.Words.{encrypt_blocks, blocks-Same}

-- What the specification makes of the result of the first loop.
onward : Cipher → Bytes → Bytes → Cipher × Bytes
onward s out rest =
    let (s', out') = bytewise (macfunc s s.mbuf) rest in
    if s.nbuf == 0 then (s', out ++ out') else (s, out)

onward-cons :
    (s : Cipher) (c : ℕ) (out rest : Bytes)
    → onward s (c ∷ out) rest ≡ ((onward s out rest).0, c ∷ (onward s out rest).1)
unfolding onward
onward-cons s c out rest = elim (Bool-cases (s.nbuf == 0)) [ inl e ↦ rw e | inr e ↦ rw e ]

bytewise-pending :
    (s : Cipher) (b : ℕ) (bs : Bytes)
    → (s.nbuf == 0) ≡ false
    → bytewise s (b ∷ bs) ≡ (
      (bytewise (collect (encrypt_byte s b).0) bs).0,
      (encrypt_byte s b).1 ∷ (bytewise (collect (encrypt_byte s b).0) bs).1,
    )
unfolding bytewise step ready encrypt_byte
bytewise-pending s b bs e = rw e

fill-onward :
    (s : Cipher) (bs : Bytes)
    → (s.nbuf == 0) ≡ false
    → bytewise s bs
      ≡ onward (fill encrypt_byte s bs).0 (fill encrypt_byte s bs).1 (fill encrypt_byte s bs).2
fill-onward s [] e = unfold bytewise fill onward in rw e
fill-onward s (b ∷ bs) e =
    let s1 = (encrypt_byte s b).0 in
    let cons : Cipher × Bytes → Cipher × Bytes = λ r. (r.0, (encrypt_byte s b).1 ∷ r.1) in
    bytewise-pending s b bs e
    ∙ ap cons (collected_or_not s1 bs (Bool-cases (s1.nbuf == 0)) (fill-onward s1 bs))
    ∙ sym (rw (fill-step encrypt_byte s b bs e) (onward-cons _ (encrypt_byte s b).1 _ _))
  where
    collected_or_not :
        (t : Cipher) (ys : Bytes)
        → ((t.nbuf == 0) ≡ true) ⊎ ((t.nbuf == 0) ≡ false)
        → ((t.nbuf == 0) ≡ false
            → bytewise t ys
              ≡ onward
                  (fill encrypt_byte t ys).0
                  (fill encrypt_byte t ys).1
                  (fill encrypt_byte t ys).2)
        → bytewise (collect t) ys
          ≡ onward (fill encrypt_byte t ys).0 (fill encrypt_byte t ys).1 (fill encrypt_byte t ys).2
    collected_or_not t ys (inl e) ih =
        rw (fill-stop encrypt_byte t ys e) (unfold collect onward in rw e)
    collected_or_not t ys (inr e) ih = unfold collect in rw e (ih e)

fill-bytes :
    (f : Cipher → ℕ → Cipher × ℕ) (s : Cipher) (bs : Bytes)
    → All IsByte bs
    → All IsByte (fill f s bs).2
unfolding fill
fill-bytes f s [] h = tt
fill-bytes f s (b ∷ bs) h = elim (Bool-cases (s.nbuf == 0)) [
  | inl e ↦ rw e h
  | inr e ↦ rw e (fill-bytes f (f s b).0 bs h.1)
]

nbuf-macfunc : (s : Cipher) (i : ℕ) → (s.nbuf == 0) ≡ true → (macfunc s i).nbuf ≡ 0
unfolding macfunc crcfunc
nbuf-macfunc s i e = ground arith

-- What `crypt` makes of the result of the first loop.
filled-Same :
    (s : Cipher) (out rest : Bytes)
    → All IsByte rest
    → Same
        (if s.nbuf == 0
          then (
            (encrypt_blocks (macfunc s s.mbuf) rest).0,
            out ++ (encrypt_blocks (macfunc s s.mbuf) rest).1,
          )
          else (s, out))
        (onward s out rest)
unfolding onward
filled-Same s out rest h = elim (Bool-cases (s.nbuf == 0)) [
  | inl e ↦
      let same = blocks-Same (macfunc s s.mbuf) rest (nbuf-macfunc s s.mbuf e) h in
      rw e
        (record { same_bytes = ap (λ r. out ++ r) same.same_bytes; same_state = same.same_state })
  | inr e ↦ rw e (record { same_bytes = refl; same_state = refl })
]

-- platform_shannon_encrypt does what its bytewise specification does, from any state and for any
-- bytes: the output is the same, and so is the state but for what is not read again.
pub encrypt-bytewise :
    (s : Cipher) (bs : Bytes) → All IsByte bs → Same (encrypt s bs) (bytewise s bs)
unfolding encrypt crypt
encrypt-bytewise s bs h = elim (Bool-cases (s.nbuf == 0)) [
  | inl e ↦ rw e (blocks-Same s bs (ground arith) h)
  | inr e ↦
      rw (e, fill-onward s bs e)
        (filled-Same (fill encrypt_byte s bs).0 (fill encrypt_byte s bs).1
          (fill encrypt_byte s bs).2 (fill-bytes encrypt_byte s bs h))
]

-- A message may be encrypted in parts, cut anywhere: the second call goes on where the first one
-- stopped, and the output and the state, but for what is not read again, are those of one call.
pub encrypt-append :
    (s : Cipher) (xs ys : Bytes)
    → All IsByte xs
    → All IsByte ys
    → Same
        (encrypt s (xs ++ ys))
        ((encrypt (encrypt s xs).0 ys).0, (encrypt s xs).1 ++ (encrypt (encrypt s xs).0 ys).1)
encrypt-append s xs ys h k =
    let whole = encrypt-bytewise s (xs ++ ys) (All-append IsByte xs ys h k) in
    let first = encrypt-bytewise s xs h in
    let second = encrypt-bytewise (encrypt s xs).0 ys k in
    let on = bytewise-settled (encrypt s xs).0 (bytewise s xs).0 ys first.same_state in
    let parts = bytewise-append s xs ys in
    record {
      same_bytes =
          whole.same_bytes
          ∙ ap (λ r. r.1) parts
          ∙ sym (
              ap (λ r. (encrypt s xs).1 ++ r) (second.same_bytes ∙ on.same_bytes)
              ∙ ap (λ r. r ++ (bytewise (bytewise s xs).0 ys).1) first.same_bytes);
      same_state =
          whole.same_state ∙ ap (λ r. settled r.0) parts ∙ sym (second.same_state ∙ on.same_state);
    }

cycle-mbuf : (s : Cipher) (m : ℕ) → cycle (record s { mbuf = m }) ≡ record (cycle s) { mbuf = m }
unfolding cycle
cycle-mbuf s m = refl

mix_crc-mbuf :
    (s : Cipher) (m : ℕ) (cs : List ℕ)
    → mix_crc (record s { mbuf = m }) cs ≡ record (mix_crc s cs) { mbuf = m }
unfolding mix_crc
mix_crc-mbuf s m [] = refl
mix_crc-mbuf s m (c ∷ cs) =
    ap (λ t. mix_crc t cs) (cycle-mbuf _ m)
    ∙ mix_crc-mbuf (cycle (record s { r = set s.r keyp (bit_xor (at s.r keyp) c) })) m cs

finish-settled : (s : Cipher) → (finish (settled s)).1 ≡ (finish s).1
unfolding finish settled
finish-settled s = elim (Bool-cases (s.nbuf == 0)) [
  | inl e ↦
      rw e
        (rw e (ap (λ t. word2byte t.sbuf) (mix_crc-mbuf (record s { konst = initkonst }) 0 s.crc)))
  | inr e ↦ rw e (rw e refl)
]

-- The MAC of a message does not depend on how the calls of platform_shannon_encrypt cut it.
pub finish-encrypt-append :
    (s : Cipher) (xs ys : Bytes)
    → All IsByte xs
    → All IsByte ys
    → (finish (encrypt s (xs ++ ys)).0).1 ≡ (finish (encrypt (encrypt s xs).0 ys).0).1
finish-encrypt-append s xs ys h k =
    sym (finish-settled _)
    ∙ ap (λ t. (finish t).1) (encrypt-append s xs ys h k).same_state
    ∙ finish-settled _
