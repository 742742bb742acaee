-- ===== src/Transcript.antt =====
-- proto.js: `transcript`, what the two sides of the handshake authenticate.
mod Tests
use mathlib.Core.List.{append_assoc}
use agent_mobile.Common.{
  ℕ, ◌+◌, ◌^◌, ◌<◌, ◌≡◌, refl, sym, ap, ◌∙◌, Bool, true, false, Option, none, some, List, [], ◌∷◌,
  ◌++◌, ltb, if◌then◌else◌, length, take, drop, arith, if-cases, ltb→lt, drop_append_left,
}
use agent_mobile.Bytes.{to_be, of_be, length-to_be, of_be-to_be}
use agent_mobile.Channel.{Bytes}
use agent_mobile.Frames.Roundtrip.{take-of, drop-of}

-- `HKDF_INFO`
abbrev pub hkdf_info : Bytes
hkdf_info =
    b'a' ∷ b'g' ∷ b'e' ∷ b'n' ∷ b't' ∷ b'-' ∷ b'm' ∷ b'o' ∷ b'b' ∷ b'i' ∷ b'l' ∷ b'e' ∷ b'/' ∷ b'v'
    ∷ b'2' ∷ []

-- `lenPrefixed(buf)`; a length that does not fit two bytes is a RangeError.
unfoldable pub len_prefixed : Bytes → Option Bytes
len_prefixed buf = if ltb (length buf) (2 ^ 16) then some (to_be 2 (length buf) ++ buf) else none

-- The parts one after the other, each with its length.
unfoldable pub prefixed_all : List Bytes → Option Bytes
prefixed_all [] = some []
prefixed_all (buf ∷ bufs) = elim (len_prefixed buf) [
  | none ↦ none
  | some p ↦ elim (prefixed_all bufs) [ none ↦ none | some q ↦ some (p ++ q) ]
]

-- `transcript(clientIdentityPub, clientEphPub, serverIdentityPub, serverEphPub)`
unfoldable pub transcript : Bytes → Bytes → Bytes → Bytes → Option Bytes
transcript client_identity client_eph server_identity server_eph =
    elim (prefixed_all (client_identity ∷ client_eph ∷ server_identity ∷ server_eph ∷ [])) [
      | none ↦ none
      | some q ↦ some (hkdf_info ++ q)
    ]

-- Two messages that begin with a part and its length, and agree, agree on the part and the rest.
cancel :
    (x y r s : Bytes)
    → length x < 2 ^ 16
    → length y < 2 ^ 16
    → to_be 2 (length x) ++ (x ++ r) ≡ to_be 2 (length y) ++ (y ++ s)
    → (x ≡ y) × (r ≡ s)
cancel x y r s hx hy e = (
  sym (take-of (length x) x r refl) ∙ ap (take (length x)) rest ∙ take-of (length x) y s (sym same),
  sym (drop-of (length x) x r refl) ∙ ap (drop (length x)) rest ∙ drop-of (length x) y s (sym same),
)
  where
    heads : to_be 2 (length x) ≡ to_be 2 (length y)
    heads =
        sym (take-of 2 (to_be 2 (length x)) (x ++ r) (length-to_be 2 (length x)))
        ∙ ap (take 2) e
        ∙ take-of 2 (to_be 2 (length y)) (y ++ s) (length-to_be 2 (length y))

    same : length x ≡ length y
    same =
        sym (of_be-to_be 2 (length x) (omega (arith, hx)))
        ∙ ap of_be heads
        ∙ of_be-to_be 2 (length y) (omega (arith, hy))

    rest : x ++ r ≡ y ++ s
    rest =
        sym (drop-of 2 (to_be 2 (length x)) (x ++ r) (length-to_be 2 (length x)))
        ∙ ap (drop 2) e
        ∙ drop-of 2 (to_be 2 (length y)) (y ++ s) (length-to_be 2 (length y))

-- A sequence with a first part, taken apart.
record Cons (x : Bytes) (xs : List Bytes) (t : Bytes) : Type 0 where
  short : length x < 2 ^ 16
  later : Bytes
  made : prefixed_all xs ≡ some later
  joined : to_be 2 (length x) ++ (x ++ later) ≡ t

prefixed_all-Cons :
    (x : Bytes) (xs : List Bytes) (t : Bytes) → prefixed_all (x ∷ xs) ≡ some t → Cons x xs t
unfolding prefixed_all len_prefixed
prefixed_all-Cons x xs t h = go (prefixed_all xs) refl
  where
    go : (o : Option Bytes) → prefixed_all xs ≡ o → Cons x xs t
    go none e = absurd (ground (arith, h, e))
    go (some q) e = record {
      short = ground (arith, h, e);
      later = q;
      made = e;
      joined = sym (append_assoc (to_be 2 (length x)) x q) ∙ ground (arith, h, e);
    }

-- Sequences of as many parts that are written alike are the same.
prefixed_all-injective :
    (xs ys : List Bytes) (t : Bytes)
    → length xs ≡ length ys
    → prefixed_all xs ≡ some t
    → prefixed_all ys ≡ some t
    → xs ≡ ys
prefixed_all-injective [] [] t l h k = refl
prefixed_all-injective [] (y ∷ ys) t l h k = absurd (omega (arith, l))
prefixed_all-injective (x ∷ xs) [] t l h k = absurd (omega (arith, l))
prefixed_all-injective (x ∷ xs) (y ∷ ys) t l h k =
    let a = prefixed_all-Cons x xs t h in
    let b = prefixed_all-Cons y ys t k in
    let (e, f) = cancel x y a.later b.later a.short b.short (a.joined ∙ sym b.joined) in
    let rest =
      prefixed_all-injective xs ys b.later (omega (arith, l)) (a.made ∙ ap some f) b.made in
    rw (e, rest) refl

-- What the transcript says of its four keys.
transcript-prefixed :
    (a b c d t : Bytes)
    → transcript a b c d ≡ some t
    → (q : Bytes) × (prefixed_all (a ∷ b ∷ c ∷ d ∷ []) ≡ some q) × (hkdf_info ++ q ≡ t)
unfolding transcript
transcript-prefixed a b c d t h = go (prefixed_all (a ∷ b ∷ c ∷ d ∷ [])) refl
  where
    go :
        (o : Option Bytes)
        → prefixed_all (a ∷ b ∷ c ∷ d ∷ []) ≡ o
        → (q : Bytes) × (prefixed_all (a ∷ b ∷ c ∷ d ∷ []) ≡ some q) × (hkdf_info ++ q ≡ t)
    go none e = absurd (ground (arith, h, e))
    go (some q) e = (q, e, ground (arith, h, e))

-- Two sides that authenticate the same transcript agree on all four keys, in their roles: nothing
-- of one key can pass for a part of the next.
pub transcript-injective :
    (a b c d a' b' c' d' t : Bytes)
    → transcript a b c d ≡ some t
    → transcript a' b' c' d' ≡ some t
    → a ∷ b ∷ c ∷ d ∷ [] ≡ a' ∷ b' ∷ c' ∷ d' ∷ []
transcript-injective a b c d a' b' c' d' t h k =
    let (q, e, f) = transcript-prefixed a b c d t h in
    let (q', e', f') = transcript-prefixed a' b' c' d' t k in
    let same =
      sym (drop_append_left hkdf_info q)
      ∙ ap (drop 15) (f ∙ sym f')
      ∙ drop_append_left hkdf_info q' in
    prefixed_all-injective (a ∷ b ∷ c ∷ d ∷ []) (a' ∷ b' ∷ c' ∷ d' ∷ []) q' refl (e ∙ ap some same)
      e'

abbrev part : Bytes → Bytes
part buf = to_be 2 (length buf) ++ buf

len_prefixed_lem : (buf : Bytes) → length buf < 2 ^ 16 → len_prefixed buf ≡ some (part buf)
unfolding len_prefixed
len_prefixed_lem buf h = ground (arith, h)

-- Keys that are not too long have a transcript.
pub transcript-total :
    (a b c d : Bytes)
    → length a < 2 ^ 16
    → length b < 2 ^ 16
    → length c < 2 ^ 16
    → length d < 2 ^ 16
    → (t : Bytes) × (transcript a b c d ≡ some t)
unfolding transcript prefixed_all
transcript-total a b c d ha hb hc hd = (
  hkdf_info ++ (part a ++ (part b ++ (part c ++ (part d ++ [])))),
  ground (
    arith,
    len_prefixed_lem a ha,
    len_prefixed_lem b hb,
    len_prefixed_lem c hc,
    len_prefixed_lem d hd,
  ),
)
