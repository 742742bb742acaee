-- ===== src/Frames/Roundtrip.antt =====
-- transport/wsframes.js: what is packed is unpacked.
use agent_mobile.Common.{
  ℕ, zero, suc, ◌+◌, ◌%◌, ◌^◌, ◌≤◌, ◌<◌, ◌≡◌, ◌⊎◌, inl, inr, refl, sym, ap, ◌∙◌, false, none, some,
  List, [], ◌∷◌, ◌++◌, ltb, length, take, drop, get_or, arith, length-append, take_append_left,
  drop_append_left, Bool-cases, ltb→lt, ltb→le,
}
use agent_mobile.Bytes.{to_be, length-to_be, of_be-to_be}
use agent_mobile.Channel.{Bytes, Frame}
use agent_mobile.Frames.{pack, unpack, pack_audio, unpack_audio, header_len}

module _ {A : Type 0} where
  -- The first `n` and the rest, of a list that begins with `n` others.
  pub take-of : (n : ℕ) (xs ys : List A) → length xs ≡ n → take n (xs ++ ys) ≡ xs
  take-of n xs ys h = rw h at (take_append_left xs ys)

  pub drop-of : (n : ℕ) (xs ys : List A) → length xs ≡ n → drop n (xs ++ ys) ≡ ys
  drop-of n xs ys h = rw h at (drop_append_left xs ys)

  drop_nil : (n : ℕ) → drop {A = A} n [] ≡ []
  drop_nil zero = refl
  drop_nil (suc n) = refl

  drop-add : (m n : ℕ) (xs : List A) → drop (m + n) xs ≡ drop n (drop m xs)
  drop-add zero n xs = ap (λ k. drop k xs) {x = 0 + n} {y = n} (omega arith)
  drop-add (suc m) n [] = drop_nil (suc m + n) ∙ sym (drop_nil n)
  drop-add (suc m) n (x ∷ xs) =
      ap (λ k. drop k (x ∷ xs)) {x = suc m + n} {y = suc (m + n)} (omega arith) ∙ drop-add m n xs

  take-append-drop : (n : ℕ) (xs : List A) → take n xs ++ drop n xs ≡ xs
  take-append-drop zero xs = refl
  take-append-drop (suc n) [] = refl
  take-append-drop (suc n) (x ∷ xs) = ap (λ ys. x ∷ ys) (take-append-drop n xs)

  -- A list in three pieces.
  three_pieces : (m n : ℕ) (xs : List A) → take m xs ++ (take n (drop m xs) ++ drop (m + n) xs) ≡ xs
  three_pieces m n xs = rw (drop-add m n xs, take-append-drop n (drop m xs)) (take-append-drop m xs)

  pub third_piece :
      (m n : ℕ) (xs ys zs : List A)
      → length xs ≡ m
      → length ys ≡ n
      → drop (m + n) (xs ++ (ys ++ zs)) ≡ zs
  third_piece m n xs ys zs h k =
      rw (drop-add m n (xs ++ (ys ++ zs)), drop-of m xs (ys ++ zs) h) (drop-of n ys zs k)

-- A frame whose nonce and tag have the lengths of the cipher, and whose type is a byte, comes back
-- from the wire as it was.
pub unpack-pack :
    (f : Frame)
    → f.type < 256
    → length f.nonce ≡ 12
    → length f.tag ≡ 16
    → unpack (pack f.type f) ≡ some f
unfolding pack unpack
unpack-pack f byte ln lt =
    rw
      (
        size,
        take-of 12 f.nonce (f.tag ++ f.ct) ln,
        drop-of 12 f.nonce (f.tag ++ f.ct) ln,
        take-of 16 f.tag f.ct lt,
        third_piece 12 16 f.nonce f.tag f.ct ln lt,
        low,
      )
      refl
  where
    low : f.type % 256 ≡ f.type
    low = omega (arith, byte)

    size : ltb (suc (length (f.nonce ++ (f.tag ++ f.ct)))) header_len ≡ false
    size = ground (arith, length-append f.nonce (f.tag ++ f.ct), length-append f.tag f.ct, ln, lt)

-- A message is read as a frame exactly when it is at least the header's length, and packing the
-- frame gives the message back, if its first item is a byte.
pub pack-unpack :
    (buf : Bytes)
    → get_or buf 0 0 < 256
    → ((length buf < header_len) × (unpack buf ≡ none))
      ⊎ ((header_len ≤ length buf) × ((f : Frame) × (unpack buf ≡ some f) × (pack f.type f ≡ buf)))
unfolding pack unpack
pack-unpack [] byte = inl (omega arith, refl)
pack-unpack (t ∷ rest) byte = elim (Bool-cases (ltb (suc (length rest)) header_len)) [
  | inl short ↦ inl (ltb→lt _ _ short, rw short refl)
  | inr long ↦ inr (
    ltb→le _ _ long,
    (
      record { type = t; nonce = take 12 rest; tag = take 16 (drop 12 rest); ct = drop 28 rest },
      rw long refl,
      rw (three_pieces 12 16 rest, low) refl,
    ),
  )
]
  where
    low : t % 256 ≡ t
    low = omega (arith, byte)

-- The number, the time and the voice bytes come back, if the numbers fit their fields.
pub unpack_audio-pack_audio :
    (seq ts : ℕ) (opus : Bytes)
    → seq < 2 ^ 32
    → ts < 2 ^ 64
    → (buf : Bytes) × (pack_audio seq ts opus ≡ some buf)
      × (unpack_audio buf ≡ some (seq, (ts, opus)))
unfolding pack_audio unpack_audio
unpack_audio-pack_audio seq ts opus hs ht = (
  to_be 4 seq ++ (to_be 8 ts ++ opus),
  ground (arith, hs, ht),
  rw
      (
        size,
        take-of 4 (to_be 4 seq) (to_be 8 ts ++ opus) (length-to_be 4 seq),
        drop-of 4 (to_be 4 seq) (to_be 8 ts ++ opus) (length-to_be 4 seq),
        take-of 8 (to_be 8 ts) opus (length-to_be 8 ts),
        third_piece 4 8 (to_be 4 seq) (to_be 8 ts) opus (length-to_be 4 seq) (length-to_be 8 ts),
        of_be-to_be 4 seq (omega (arith, hs)),
        of_be-to_be 8 ts (omega (arith, ht)),
      )
      refl,
)
  where
    size : ltb (length (to_be 4 seq ++ (to_be 8 ts ++ opus))) 12 ≡ false
    size = ground (
      arith,
      length-append (to_be 4 seq) (to_be 8 ts ++ opus),
      length-append (to_be 8 ts) opus,
      length-to_be 4 seq,
      length-to_be 8 ts,
    )
