-- ===== src/Native/RoundTrip.antt =====
-- A message that is written is read back, and the stream goes on behind it.
use llm_wiki_chrome.Prelude.{
  ℕ, zero, suc, ◌+◌, ◌*◌, ◌≤◌, ◌<◌, ◌≡◌, refl, ap, some, List, [], ◌∷◌, ◌++◌, arith, length,
}
use mathlib.Core.Path.{◌≡⟨◌⟩◌, ◌∎}
use mathlib.Core.List.{append_assoc}
use llm_wiki_chrome.Result.{ok}
use llm_wiki_chrome.Json.{Value, Fields, obj}
use llm_wiki_chrome.Native.Frames.{
  object_of, read_payload, Codec, max_message_bytes, take, skip, pack, unpack, read_native_message,
  write_native_message,
}

take-append : (xs ys : List ℕ) → take (length xs) (xs ++ ys) ≡ xs
unfolding take
take-append [] ys = refl
take-append (x ∷ xs) ys = ap (λ l. x ∷ l) (take-append xs ys)

skip-append : (xs ys : List ℕ) → skip (length xs) (xs ++ ys) ≡ ys
unfolding skip
skip-append [] ys = refl
skip-append (x ∷ xs) ys = skip-append xs ys

unpack-pack : (n : ℕ) → n ≤ max_message_bytes → unpack (pack n) ≡ n
unfolding unpack pack
unpack-pack n h = omega arith

module _ (codec : Codec) where
  read_payload-append :
      (fs : Fields) (payload rest : List ℕ)
      → codec.loads payload ≡ some (obj fs)
      → 0 < length payload
      → length payload ≤ max_message_bytes
      → read_payload codec (length payload) (payload ++ rest) ≡ ok (some fs, rest)
  unfolding read_payload object_of
  read_payload-append fs payload rest decodes filled fits =
      ground (arith, take-append payload rest, skip-append payload rest)

  write_native_message-bytes :
      (v : Value) (bytes : List ℕ)
      → write_native_message codec v ≡ ok bytes
      → (bytes ≡ pack (length (codec.dumps v)) ++ codec.dumps v)
        × (length (codec.dumps v) ≤ max_message_bytes)
  unfolding write_native_message
  write_native_message-bytes v bytes h = ground arith

  read-pack :
      (n : ℕ) (stream : List ℕ)
      → read_native_message codec (pack n ++ stream) ≡ read_payload codec (unpack (pack n)) stream
  unfolding read_native_message pack
  read-pack n stream = refl

  -- An object whose encoding is decoded to it, and has at least one byte, is read back as it was written,
  -- whatever follows it in the stream, if it is written at all.
  pub read-write :
      (fs : Fields) (bytes rest : List ℕ)
      → codec.loads (codec.dumps (obj fs)) ≡ some (obj fs)
      → 0 < length (codec.dumps (obj fs))
      → write_native_message codec (obj fs) ≡ ok bytes
      → read_native_message codec (bytes ++ rest) ≡ ok (some fs, rest)
  read-write fs bytes rest decodes filled h =
      let payload = codec.dumps (obj fs) in
      let (q, fits) = write_native_message-bytes (obj fs) bytes h in
      read_native_message codec (bytes ++ rest)
      ≡⟨ ap (λ b. read_native_message codec (b ++ rest)) q ⟩
        read_native_message codec ((pack (length payload) ++ payload) ++ rest)
      ≡⟨ ap (read_native_message codec) (append_assoc (pack (length payload)) payload rest) ⟩
        read_native_message codec (pack (length payload) ++ (payload ++ rest))
      ≡⟨ read-pack (length payload) (payload ++ rest) ⟩
        read_payload codec (unpack (pack (length payload))) (payload ++ rest)
      ≡⟨ ap (λ n. read_payload codec n (payload ++ rest)) (unpack-pack (length payload) fits) ⟩
        read_payload codec (length payload) (payload ++ rest)
      ≡⟨ read_payload-append fs payload rest decodes filled fits ⟩ ok (some fs, rest) ∎

  take-skip : (n : ℕ) (stream : List ℕ) → stream ≡ take n stream ++ skip n stream
  unfolding take skip
  take-skip zero stream = refl
  take-skip (suc n) [] = refl
  take-skip (suc n) (b ∷ stream) = ap (λ l. b ∷ l) (take-skip n stream)

  read_payload-parts :
      (n : ℕ) (stream rest : List ℕ) (fs : Fields)
      → read_payload codec n stream ≡ ok (some fs, rest)
      → (length (take n stream) ≡ n)
        × (0 < n)
        × (n ≤ max_message_bytes)
        × (codec.loads (take n stream) ≡ some (obj fs))
        × (rest ≡ skip n stream)
  unfolding read_payload object_of
  read_payload-parts n stream rest fs h = ground arith

  -- A message that is read is the decoded payload behind the four bytes of its size, which is at least one
  -- and at most the limit, and what is left is the stream behind the payload.
  pub read_native_message-bounds :
      (a b c d : ℕ) (stream rest : List ℕ) (fs : Fields)
      → read_native_message codec (a ∷ b ∷ c ∷ d ∷ stream) ≡ ok (some fs, rest)
      → (payload : List ℕ) × (stream ≡ payload ++ rest)
        × (length payload ≡ a + 256 * b + 65536 * c + 16777216 * d)
        × (0 < length payload)
        × (length payload ≤ max_message_bytes)
        × (codec.loads payload ≡ some (obj fs))
  unfolding read_native_message unpack
  read_native_message-bounds a b c d stream rest fs h =
      let n = a + 256 * b + 65536 * c + 16777216 * d in
      let (size, some_byte, fits, decodes, left) = read_payload-parts n stream rest fs h in
      (take n stream, rw left (take-skip n stream), size, omega arith, omega arith, decodes)
