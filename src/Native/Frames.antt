-- ===== src/Native/Frames.antt =====
-- native_messaging.py: `read_native_message`, `write_native_message` and `_valid_extension_origin`. A
-- stream is the bytes that are still to be read.
use llm_wiki_chrome.Prelude.{
  ℕ, zero, suc, ◌+◌, ◌*◌, ◌/◌, ◌%◌, String, Bool, not, ◌&&◌, ◌||◌, Option, none, some, List, [],
  ◌∷◌, ◌++◌, ltb, eqb, within, length, all,
}
use llm_wiki_chrome.Result.{Result, ok, err, native_error, raise_if, ◌>>=◌, ◌>>◌}
use llm_wiki_chrome.Text.{codes, prefix_of, ends_in}
use llm_wiki_chrome.Json.{Value, Fields, obj}

abbrev pub max_message_bytes : ℕ
max_message_bytes = 1_048_576

-- json with its UTF-8 encoding: `dumps` is json.dumps(...).encode("utf-8"), and `loads` is
-- json.loads(payload.decode("utf-8")), `none` where either raises.
pub record Codec : Type 0 where
  pub dumps : Value → List ℕ
  pub loads : List ℕ → Option Value

-- `stream.read(n)`, what it returns and what it leaves
unfoldable pub take : ℕ → List ℕ → List ℕ
take zero bytes = []
take (suc n) [] = []
take (suc n) (b ∷ bytes) = b ∷ take n bytes

unfoldable pub skip : ℕ → List ℕ → List ℕ
skip zero bytes = bytes
skip (suc n) [] = []
skip (suc n) (b ∷ bytes) = skip n bytes

-- struct.pack("=I", n) and struct.unpack("=I", header) of a little-endian machine
unfoldable pub pack : ℕ → List ℕ
pack n = n % 256 ∷ n / 256 % 256 ∷ n / 65536 % 256 ∷ n / 16777216 % 256 ∷ []

unfoldable pub unpack : List ℕ → ℕ
unpack (a ∷ b ∷ c ∷ d ∷ []) = a + 256 * b + 65536 * c + 16777216 * d
unpack _ = 0

module _ (codec : Codec) where
  unfoldable pub object_of : Option Value → Result Fields
  object_of (some (obj fs)) = ok fs
  object_of (some _) = err (native_error "native message must be a JSON object")
  object_of none = err (native_error "native message is not valid JSON")

  unfoldable pub read_payload : ℕ → List ℕ → Result (Option Fields × List ℕ)
  read_payload size stream = do
    raise_if (eqb size 0 || ltb max_message_bytes size)
        (native_error "native message has an invalid size")
    let payload = take size stream
    raise_if (not (eqb (length payload) size)) (native_error "native message is truncated")
    fs ← object_of (codec.loads payload)
    ok (some fs, skip size stream)

  -- `none` at the end of the stream
  unfoldable pub read_native_message : List ℕ → Result (Option Fields × List ℕ)
  read_native_message [] = ok (none, [])
  read_native_message (a ∷ b ∷ c ∷ d ∷ stream) = read_payload (unpack (a ∷ b ∷ c ∷ d ∷ [])) stream
  read_native_message _ = err (native_error "native message header is truncated")

  -- The bytes that are written.
  unfoldable pub write_native_message : Value → Result (List ℕ)
  write_native_message v = do
    let payload = codec.dumps v
    raise_if (ltb max_message_bytes (length payload)) (native_error "native message is too large")
    ok (pack (length payload) ++ payload)

-- The caller is chrome-extension://<32 letters a to p>/.
unfoldable pub valid_extension_origin : String → Bool
unfolding prefix_of ends_in take skip all
valid_extension_origin value =
    prefix_of (codes "chrome-extension://") (codes value)
    && ends_in b'/' (codes value)
    && is_id (skip 19 (codes value))
  where
    is_id : List ℕ → Bool
    is_id rest = eqb (length rest) 33 && all (within b'a' b'p') (take 32 rest)
