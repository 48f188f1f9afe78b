-- ===== src/Https/Received.antt =====
-- What the read loop of platform_https_get gathers, however the TLS library splits the stream.
use espconnect.Common.{
  ℕ, zero, suc, ◌+◌, ◌-◌, ◌≤◌, ◌<◌, ◌≡◌, refl, sym, ap, ◌∙◌, [], ◌∷◌, ◌++◌, append-nil,
  append_assoc, length, take, Bytes, length-append, arith, ◌==◌, leb, Bool-cases, inl, inr,
  take-append_length, take-append_le, true,
}
use espconnect.Https.{Tls, IsStream, read_loop}

take_nil : (n : ℕ) → ◌≡◌ {A = Bytes} (take n []) []
take_nil zero = refl
take_nil (suc n) = refl

length_zero : (xs : Bytes) → (length xs == 0) ≡ true → xs ≡ []
length_zero [] e = refl
length_zero (x ∷ xs) e = absurd (ground arith)

nothing_there : (xs : Bytes) → (0 < length xs → 1 ≤ 0) → xs ≡ []
nothing_there [] h = refl
nothing_there (x ∷ xs) h = absurd (omega (arith, h (omega arith)))

module _ (tls : Tls) (laws : IsStream tls) where
  abbrev stream : tls.Conn → Bytes
  stream = laws.stream

  read_loop-take :
      (size fuel : ℕ) (got : Bytes) (c : tls.Conn)
      → length got < size - 1
      → size ≤ length got + fuel
      → (read_loop tls size fuel got c).0 ≡ got ++ take (size - length got - 1) (stream c)
  unfolding read_loop
  read_loop-take size zero got c room h = absurd (omega arith)
  read_loop-take size (suc fuel) got c room h =
      let n = size - length got - 1 in
      let xs = (tls.read c n).0 in
      let c' = (tls.read c n).1 in
      let front : xs ++ stream c' ≡ stream c = laws.front c n (omega arith) in
      let len = length-append got xs in
      let short : length xs ≤ n = laws.fits c n in
      elim (Bool-cases (length xs == 0)) [
        | inl e ↦
            let empty =
              nothing_there (stream c)
                (λ more. ground (arith, laws.some_byte c n (omega arith) more)) in
            rw (e, empty, take_nil n) (sym (append-nil got))
        | inr e ↦ elim (Bool-cases (leb (size - 1) (length (got ++ xs)))) [
          | inl full ↦
              rw (e, full)
                (ap (λ r. got ++ r)
                  (sym (take-append_length xs (stream c') n (ground arith)) ∙ ap (take n) front))
          | inr more ↦
              rw (e, more)
                (read_loop-take size fuel (got ++ xs) c' (ground arith) (ground arith)
                  ∙ append_assoc got xs _
                  ∙ ap (λ r. got ++ r)
                      (ap (λ k. xs ++ take k (stream c')) (ground arith)
                        ∙ sym (take-append_le xs (stream c') n short)
                        ∙ ap (take n) front))
        ]
      ]

  -- Whatever the splitting, the read loop of platform_https_get, over a buffer of 2 bytes at least,
  -- gathers the stream up to one byte less than the buffer has, all of it where it has no more; as
  -- much fuel as the buffer has bytes is enough.
  pub read_loop-stream :
      (size fuel : ℕ) (c : tls.Conn)
      → 2 ≤ size
      → size ≤ fuel
      → (read_loop tls size fuel [] c).0 ≡ take (size - 1) (stream c)
  read_loop-stream size fuel c h k =
      read_loop-take size fuel [] c (omega arith) (omega arith)
      ∙ ap (λ n. take n (stream c)) (omega arith)
