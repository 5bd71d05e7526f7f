-- ===== src/Cloudflare/Contract/Chunks.antt =====
-- `payload_json_chunks` of cloudflare/src/hooklane_cf/contract.py, with Python's strict UTF-8 codec.
-- The limit is an argument; the program's is `payload_chunk_limit_bytes`.
use Prim.Native.Nat.{bit_and}
use hooklane.Prelude.{
  ℕ, zero, suc, ◌+◌, ◌-◌, ◌*◌, ◌/◌, ◌%◌, min, Bool, true, false, not, ◌&&◌, Option, none, some,
  List, [], ◌∷◌, ◌++◌, ltb, leb, ◌==◌, length, take, drop, if◌then◌else◌,
}

abbrev pub payload_chunk_limit_bytes : ℕ
payload_chunk_limit_bytes = 1500000

-- The bytes of one code point. A surrogate, or a number above 0x10FFFF, has none.
unfoldable pub encode_char : ℕ → Option (List ℕ)
encode_char c =
    if ltb c 0x80
    then some (c ∷ [])
    else if ltb c 0x800
    then some ((192 + c / 64) ∷ (128 + c % 64) ∷ [])
    else if leb 0xd800 c && leb c 0xdfff
    then none
    else if ltb c 0x10000
    then some ((224 + c / 4096) ∷ (128 + c / 64 % 64) ∷ (128 + c % 64) ∷ [])
    else if ltb c 0x110000
    then some
        ((240 + c / 262144) ∷ (128 + c / 4096 % 64) ∷ (128 + c / 64 % 64) ∷ (128 + c % 64) ∷ [])
    else none

-- `value.encode("utf-8")`.
unfoldable pub encode : List ℕ → Option (List ℕ)
encode [] = some []
encode (c ∷ cs) = elim (encode_char c) [
  | none ↦ none
  | some bytes ↦ elim (encode cs) [ none ↦ none | some rest ↦ some (bytes ++ rest) ]
]

-- `byte & 0b1100_0000 == 0b1000_0000`.
unfoldable pub is_continuation : ℕ → Bool
is_continuation byte = bit_and byte 0xc0 == 0x80

-- The payload bits of a continuation byte, `none` for any other byte.
unfoldable pub tail_bits : ℕ → Option ℕ
tail_bits byte = if leb 128 byte && ltb byte 192 then some (byte - 128) else none

-- What a first byte announces: the continuation bytes that follow, its own payload bits, and the
-- least code point that such a sequence may spell.
unfoldable pub lead : ℕ → Option (ℕ × ℕ × ℕ)
lead b =
    if ltb b 0x80
    then some (0, b, 0)
    else if leb 192 b && ltb b 224
    then some (1, b - 192, 0x80)
    else if leb 224 b && ltb b 240
    then some (2, b - 224, 0x800)
    else if leb 240 b && ltb b 248
    then some (3, b - 240, 0x10000)
    else none

-- A code point spelled in full is in its range and no surrogate.
unfoldable pub spelled_well : ℕ → ℕ → Bool
spelled_well lo c = leb lo c && ltb c 0x110000 && not (leb 0xd800 c && leb c 0xdfff)

abbrev pub prepend : ℕ → Option (List ℕ) → Option (List ℕ)
prepend c none = none
prepend c (some cs) = some (c ∷ cs)

-- The decoder while `n` continuation bytes are to come: `acc` is what has been read of the code
-- point, `lo` its least value.
unfoldable pub decode_from : ℕ → ℕ → ℕ → List ℕ → Option (List ℕ)
decode_from zero acc lo [] = some []
decode_from (suc n) acc lo [] = none
decode_from zero acc lo (b ∷ bs) = elim (lead b) [
  | none ↦ none
  | some (n, a, l) ↦ elim (n == 0) [
    | true ↦ prepend a (decode_from zero 0 0 bs)
    | false ↦ decode_from n a l bs
  ]
]
decode_from (suc zero) acc lo (b ∷ bs) = elim (tail_bits b) [
  | none ↦ none
  | some t ↦ elim (spelled_well lo (acc * 64 + t)) [
    | true ↦ prepend (acc * 64 + t) (decode_from zero 0 0 bs)
    | false ↦ none
  ]
]
decode_from (suc (suc n)) acc lo (b ∷ bs) = elim (tail_bits b) [
  | none ↦ none
  | some t ↦ decode_from (suc n) (acc * 64 + t) lo bs
]

-- `value.decode("utf-8")`.
unfoldable pub decode : List ℕ → Option (List ℕ)
unfolding decode_from
decode bytes = decode_from zero 0 0 bytes

-- `encoded[index]`, at an index in range.
unfoldable pub byte_at : List ℕ → ℕ → ℕ
byte_at [] i = 0
byte_at (b ∷ bs) zero = b
byte_at (b ∷ bs) (suc i) = byte_at bs i

-- `while end > start and encoded[end] & 0b1100_0000 == 0b1000_0000: end -= 1`.
unfoldable pub retreat : List ℕ → ℕ → ℕ → ℕ
unfolding is_continuation byte_at
retreat encoded start zero = zero
retreat encoded start (suc e) =
    elim (ltb start (suc e) && is_continuation (byte_at encoded (suc e))) [
      | true ↦ retreat encoded start e
      | false ↦ suc e
    ]

-- The end of the chunk that begins at `start`.
unfoldable pub chunk_end : ℕ → List ℕ → ℕ → ℕ
unfolding retreat
chunk_end limit encoded start =
    let stop = min (start + limit) (length encoded) in
    if ltb stop (length encoded) then retreat encoded start stop else stop

-- The loop; `none` is a `ValueError`, a chunk that does not decode or that is empty. The fuel
-- counts the rounds, and each round that goes on moves `start` by a byte at least.
unfoldable pub chunks_from : ℕ → ℕ → List ℕ → ℕ → Option (List (List ℕ))
unfolding chunk_end decode
chunks_from zero limit encoded start = if ltb start (length encoded) then none else some []
chunks_from (suc fuel) limit encoded start =
    let stop = chunk_end limit encoded start in
    let rest = chunks_from fuel limit encoded stop in
    if ltb start (length encoded)
    then if stop == start then none else elim (decode (take (stop - start) (drop start encoded))) [
      | none ↦ none
      | some chunk ↦ elim rest [ none ↦ none | some chunks ↦ some (chunk ∷ chunks) ]
    ]
    else some []

-- `payload_json_chunks`, from the text of the canonical JSON.
unfoldable pub payload_json_chunks : ℕ → List ℕ → Option (List (List ℕ))
unfolding chunks_from
payload_json_chunks limit canonical = elim (encode canonical) [
  | none ↦ none
  | some encoded ↦ chunks_from (length encoded) limit encoded 0
]
