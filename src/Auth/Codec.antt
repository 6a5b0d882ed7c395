-- ===== src/Auth/Codec.antt =====
-- auth/codec.py: tokens of API keys. Texts are lists of code points, and bytes lists of numbers;
-- `base64`, `hmac` and the random bytes are parameters. What the source redacts before it raises has
-- no part in what it raises.

use veloxrag.Prelude.{
  ℕ, Bool, true, false, not, ◌&&◌, ◌||◌, Option, none, some, List, [], ◌∷◌, ◌++◌, leb, ◌==◌,
  if◌then◌else◌, length, any, drop, codes, Checked, ok, err, ◌>>=◌, ◌>>◌, guard,
}
use veloxrag.Auth.Policies.{
  Base64, BusinessError, internal_error, same_codes, is_base64url, padding, strip_padding, is_nil,
}

pub data KeyKind : Type 0 where
  admin_key agent_key : KeyKind

abbrev pub token_prefix : KeyKind → List ℕ
token_prefix admin_key = codes "rag_adm_"
token_prefix agent_key = codes "rag_agent_"

pub record GeneratedToken : Type 0 where
  pub token : List ℕ
  pub public_id : List ℕ
  pub digest : List ℕ

pub record ParsedToken : Type 0 where
  pub kind : KeyKind
  pub public_id : List ℕ
  pub secret : List ℕ

abbrev pub invalid_api_key_error : BusinessError
invalid_api_key_error = record {
  status = 401;
  code = "INVALID_API_KEY";
  message = "Invalid API key";
}

abbrev pub starts_with : List ℕ → List ℕ → Bool
starts_with [] text = true
starts_with (p ∷ ps) [] = false
starts_with (p ∷ ps) (c ∷ cs) = p == c && starts_with ps cs

abbrev into_first : ℕ → List (List ℕ) → List (List ℕ)
into_first c [] = (c ∷ []) ∷ []
into_first c (part ∷ parts) = (c ∷ part) ∷ parts

-- `split(".")`
unfoldable pub split_dots : List ℕ → List (List ℕ)
split_dots [] = [] ∷ []
split_dots (c ∷ cs) = let rest = split_dots cs in if c == b'.' then [] ∷ rest else into_first c rest

abbrev on_pair {ℓ} : {A : Type ℓ} → List (List ℕ) → (List ℕ → List ℕ → Option A) → Option A
on_pair (a ∷ b ∷ []) f = f a b
on_pair _ f = none

abbrev has_length : ℕ → Option (List ℕ) → Bool
has_length n none = false
has_length n (some bytes) = length bytes == n

abbrev raised_as {ℓ} : {A : Type ℓ} → BusinessError → Option A → Checked BusinessError A
raised_as e none = err e
raised_as e (some a) = ok a

module _ (b : Base64) where
  -- `_encode_component`
  abbrev pub encode_component : List ℕ → List ℕ
  encode_component bytes = strip_padding (b.encode bytes)

  abbrev canonical : List ℕ → Option (List ℕ) → Option (List ℕ)
  canonical value none = none
  canonical value (some decoded) =
      if same_codes (encode_component decoded) value then some decoded else none

  -- `_decode_canonical_component`
  unfoldable pub decode_canonical_component : List ℕ → Option (List ℕ)
  decode_canonical_component value =
      if is_nil value || any (λ c. not (is_base64url c)) value
      then none
      else canonical value (b.decode (value ++ padding (length value)))

  abbrev is_present : Option (List ℕ) → Bool
  is_present none = false
  is_present (some _) = true

  abbrev pub parse_components : KeyKind → List ℕ → List ℕ → Option ParsedToken
  parse_components kind public_id secret =
      if leb 16 (length public_id)
        && leb (length public_id) 64
        && is_present (decode_canonical_component public_id)
        && has_length 32 (decode_canonical_component secret)
      then some (record { kind = kind; public_id = public_id; secret = secret })
      else none

  -- `parse_token`
  unfoldable pub parse_token : List ℕ → KeyKind → Checked BusinessError ParsedToken
  parse_token raw kind = do
    guard (not (is_nil raw) && leb (length raw) 256 && starts_with (token_prefix kind) raw)
        invalid_api_key_error
    raised_as invalid_api_key_error
        (on_pair (split_dots (drop (length (token_prefix kind)) raw)) (parse_components kind))

  module _ (hmac_digest : List ℕ → List ℕ → List ℕ) where
    -- `digest_secret`
    unfoldable pub digest_secret : List ℕ → List ℕ → Checked BusinessError (List ℕ)
    digest_secret secret key = do
      guard (has_length 32 (decode_canonical_component secret)) invalid_api_key_error
      ok (hmac_digest key secret)

    abbrev digest_is : List ℕ → Checked BusinessError (List ℕ) → Bool
    digest_is expected (err _) = false
    digest_is expected (ok calculated) = same_codes calculated expected

    unfoldable pub verify_secret : List ℕ → List ℕ → List ℕ → Bool
    verify_secret secret expected key =
        length expected == 32 && digest_is expected (digest_secret secret key)

    abbrev pub token_of : KeyKind → List ℕ → List ℕ → List ℕ
    token_of kind public_id secret = token_prefix kind ++ (public_id ++ (b'.' ∷ secret))

    abbrev internally {ℓ} : {A : Type ℓ} → Checked BusinessError A → Checked BusinessError A
    internally (ok a) = ok a
    internally (err _) = err internal_error

    -- `generate_token`, with the random bytes of the public id and of the secret.
    unfoldable pub generate_token :
        KeyKind → List ℕ → List ℕ → List ℕ → Checked BusinessError GeneratedToken
    generate_token kind key id_bytes secret_bytes = do
      let public_id = encode_component id_bytes
      let secret = encode_component secret_bytes
      guard (leb (length (token_of kind public_id secret)) 256) internal_error
      digest ← internally (digest_secret secret key)
      ok (record { token = token_of kind public_id secret; public_id = public_id; digest = digest })
