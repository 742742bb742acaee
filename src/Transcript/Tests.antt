-- ===== src/Transcript/Tests.antt =====
-- proto.js: a transcript at concrete keys.
use agent_mobile.Common.{List, ◌≡◌, refl, some, [], ◌∷◌, ◌++◌}
use agent_mobile.Bytes.{to_be}
use agent_mobile.Channel.{Bytes}
use agent_mobile.Transcript.{
  hkdf_info, len_prefixed, prefixed_all, transcript, transcript-injective,
}

abbrev written : Bytes
written = hkdf_info ++ (0 ∷ 1 ∷ 5 ∷ 0 ∷ 2 ∷ 6 ∷ 7 ∷ 0 ∷ 0 ∷ 0 ∷ 1 ∷ 8 ∷ [])

transcript_bytes : transcript (5 ∷ []) (6 ∷ 7 ∷ []) [] (8 ∷ []) ≡ some written
unfolding transcript prefixed_all len_prefixed to_be
transcript_bytes = refl

abbrev keys : List Bytes
keys = (5 ∷ []) ∷ (6 ∷ 7 ∷ []) ∷ [] ∷ (8 ∷ []) ∷ []

transcript-injective_example : keys ≡ keys
transcript-injective_example =
    transcript-injective (5 ∷ []) (6 ∷ 7 ∷ []) [] (8 ∷ []) (5 ∷ []) (6 ∷ 7 ∷ []) [] (8 ∷ []) written
      transcript_bytes transcript_bytes
