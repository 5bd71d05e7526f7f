-- ===== src/Cloudflare/Examples/Tests.antt =====
-- Runs of the definitions at concrete inputs.
use hooklane.Prelude.{some, [], ◌∷◌, ◌≡◌, refl}
use hooklane.Cloudflare.Contract.Chunks.{
  payload_json_chunks, encode, encode_char, lead, tail_bits, spelled_well,
}

hello_chunks :
    payload_json_chunks 5 (0x61 ∷ 0xe9 ∷ 0x65e5 ∷ 0x1f600 ∷ 0x62 ∷ [])
    ≡ some ((0x61 ∷ 0xe9 ∷ []) ∷ (0x65e5 ∷ []) ∷ (0x1f600 ∷ 0x62 ∷ []) ∷ [])
unfolding payload_json_chunks encode encode_char lead tail_bits spelled_well
hello_chunks = refl
