-- ===== src/Auth/Tokens.antt =====
-- The round trip of a token that auth/codec.py generates.
use veloxrag.Prelude.{
  ℕ, ◌≡◌, ◌≤◌, ◌+◌, ◌*◌, ◌/◌, refl, Bool, true, false, not, ◌||◌, some, List, [], ◌∷◌, ◌++◌, any,
  drop, length, length-append, leb, ◌==◌, ==_iff, arith, ok, err, ◌>>=◌,
}
use veloxrag.Auth.Policies.{Base64, is_base64url, padding, same_codes, is_nil}
use veloxrag.Auth.Codec.{
  KeyKind, admin_key, agent_key, token_prefix, GeneratedToken, starts_with, split_dots,
  encode_component, decode_canonical_component, parse_token, digest_secret, verify_secret, token_of,
  generate_token, invalid_api_key_error,
}

||-false : (a b : Bool) → (a || b) ≡ false → (a ≡ false) × (b ≡ false)
||-false true b h = cc
||-false false b h = (refl, h)

not_dot : (c : ℕ) → not (is_base64url c) ≡ false → (c == b'.') ≡ false
not_dot c h = ground arith

==_refl : (c : ℕ) → (c == c) ≡ true
==_refl c = (==_iff c c).1 refl

le→leb : (a b : ℕ) → a ≤ b → leb a b ≡ true
le→leb a b h = ground arith

same_codes_refl : (t : List ℕ) → same_codes t t ≡ true
same_codes_refl [] = refl
same_codes_refl (c ∷ cs) = rw (==_refl c, same_codes_refl cs)

starts_with-append : (p r : List ℕ) → starts_with p (p ++ r) ≡ true
starts_with-append [] r = refl
starts_with-append (c ∷ cs) r = rw (==_refl c, starts_with-append cs r)

drop-append : (p r : List ℕ) → drop (length p) (p ++ r) ≡ r
drop-append [] r = refl
drop-append (c ∷ cs) r = drop-append cs r

abbrev has_foreign : List ℕ → Bool
has_foreign t = any (λ c. not (is_base64url c)) t

split_dots_one : (t : List ℕ) → has_foreign t ≡ false → split_dots t ≡ t ∷ []
unfolding split_dots
split_dots_one [] h = refl
split_dots_one (c ∷ cs) h =
    let (here, there) = ||-false _ _ h in rw (not_dot c here, split_dots_one cs there)

split_dots_two :
    (t u : List ℕ) → has_foreign t ≡ false → split_dots (t ++ (b'.' ∷ u)) ≡ t ∷ split_dots u
unfolding split_dots
split_dots_two [] u h = refl
split_dots_two (c ∷ cs) u h =
    let (here, there) = ||-false _ _ h in rw (not_dot c here, split_dots_two cs u there)

-- What `base64` promises of a text of `n` bytes: four characters of its alphabet for every three
-- bytes, less the padding, that give the bytes back.
pub record IsEncoded (b : Base64) (n : ℕ) (bytes : List ℕ) : Type 0 where
  pub size : length bytes ≡ n
  pub width : length (encode_component b bytes) ≡ (4 * n + 2) / 3
  pub alphabet : has_foreign (encode_component b bytes) ≡ false
  pub restored :
      b.decode (encode_component b bytes ++ padding (length (encode_component b bytes)))
      ≡ some bytes

is_nil-false : (t : List ℕ) → 1 ≤ length t → is_nil t ≡ false
is_nil-false [] h = absurd (omega arith)
is_nil-false (c ∷ cs) h = refl

is_nil-append : (t u : List ℕ) → is_nil u ≡ false → is_nil (t ++ u) ≡ false
is_nil-append [] u h = h
is_nil-append (c ∷ cs) u h = refl

abbrev pub other : KeyKind → KeyKind
other admin_key = agent_key
other agent_key = admin_key

other_prefix :
    (kind : KeyKind) (r : List ℕ)
    → starts_with (token_prefix (other kind)) (token_prefix kind ++ r) ≡ false
other_prefix admin_key r = refl
other_prefix agent_key r = refl

module _ (b : Base64) where
  decode-encode_component :
      (n : ℕ) (bytes : List ℕ)
      → 1 ≤ n
      → IsEncoded b n bytes
      → decode_canonical_component b (encode_component b bytes) ≡ some bytes
  unfolding decode_canonical_component
  decode-encode_component n bytes h e = rw (
    is_nil-false (encode_component b bytes) (omega (arith, e.width)),
    e.alphabet,
    e.restored,
    same_codes_refl (encode_component b bytes),
  )

  -- Each of the two prefixes is short, so that a token is within its length.
  token_fits :
      (kind : KeyKind) (x y : List ℕ)
      → length x ≡ 22
      → length y ≡ 43
      → leb (length (token_prefix kind ++ (x ++ (b'.' ∷ y)))) 256 ≡ true
  token_fits admin_key x y h k = le→leb _ 256 (omega (arith, length-append x (b'.' ∷ y), h, k))
  token_fits agent_key x y h k = le→leb _ 256 (omega (arith, length-append x (b'.' ∷ y), h, k))

  module _ (hmac_digest : List ℕ → List ℕ → List ℕ) (kind : KeyKind)
      (key id_bytes secret_bytes : List ℕ) (identity : IsEncoded b 16 id_bytes)
      (secrecy : IsEncoded b 32 secret_bytes) where
    abbrev public_id : List ℕ
    public_id = encode_component b id_bytes

    abbrev secret : List ℕ
    secret = encode_component b secret_bytes

    abbrev token : List ℕ
    token = token_prefix kind ++ (public_id ++ (b'.' ∷ secret))

    fits : leb (length token) 256 ≡ true
    fits =
        token_fits kind public_id secret (omega (arith, identity.width))
          (omega (arith, secrecy.width))

    parts : split_dots (drop (length (token_prefix kind)) token) ≡ public_id ∷ secret ∷ []
    parts = rw (
      drop-append (token_prefix kind) (public_id ++ (b'.' ∷ secret)),
      split_dots_two public_id secret identity.alphabet,
      split_dots_one secret secrecy.alphabet,
    )

    digest_secret-encoded : digest_secret b hmac_digest secret key ≡ ok (hmac_digest key secret)
    unfolding digest_secret ◌>>=◌
    digest_secret-encoded = rw (
      decode-encode_component 32 secret_bytes (omega arith) secrecy,
      (==_iff (length secret_bytes) 32).1 secrecy.size,
    )

    generate_token-encoded :
        generate_token b hmac_digest kind key id_bytes secret_bytes
        ≡ ok (record { token = token; public_id = public_id; digest = hmac_digest key secret })
    unfolding generate_token ◌>>=◌
    generate_token-encoded = rw (fits, digest_secret-encoded)

    parse_token-token :
        parse_token b token kind
        ≡ ok (record { kind = kind; public_id = public_id; secret = secret })
    unfolding parse_token ◌>>=◌
    parse_token-token = rw (
      is_nil-append (token_prefix kind) (public_id ++ (b'.' ∷ secret))
          (is_nil-append public_id (b'.' ∷ secret) refl),
      fits,
      starts_with-append (token_prefix kind) (public_id ++ (b'.' ∷ secret)),
      parts,
      le→leb 16 (length public_id) (omega (arith, identity.width)),
      le→leb (length public_id) 64 (omega (arith, identity.width)),
      decode-encode_component 16 id_bytes (omega arith) identity,
      decode-encode_component 32 secret_bytes (omega arith) secrecy,
      (==_iff (length secret_bytes) 32).1 secrecy.size,
    )

    parse_token-other : parse_token b token (other kind) ≡ err invalid_api_key_error
    unfolding parse_token ◌>>=◌
    parse_token-other = rw (
      is_nil-append (token_prefix kind) (public_id ++ (b'.' ∷ secret))
          (is_nil-append public_id (b'.' ∷ secret) refl),
      fits,
      other_prefix kind (public_id ++ (b'.' ∷ secret)),
    )

    verify_secret-digest :
        length (hmac_digest key secret) ≡ 32
        → verify_secret b hmac_digest secret (hmac_digest key secret) key ≡ true
    unfolding verify_secret
    verify_secret-digest h = rw (
      digest_secret-encoded,
      (==_iff (length (hmac_digest key secret)) 32).1 h,
      same_codes_refl (hmac_digest key secret),
    )

-- If `base64` writes the 16 random bytes of the public id and the 32 of the secret as it promises,
-- and the digest has its 32 bytes, then a token is generated; it is parsed as a token of its kind,
-- into its public id and the secret, and refused as one of the other kind; and its digest verifies
-- the secret.
pub generate_token_round_trip :
    (b : Base64) (hmac_digest : List ℕ → List ℕ → List ℕ) (kind : KeyKind)
    (key id_bytes secret_bytes : List ℕ)
    → IsEncoded b 16 id_bytes
    → IsEncoded b 32 secret_bytes
    → length (hmac_digest key (encode_component b secret_bytes)) ≡ 32
    → (g : GeneratedToken) × (generate_token b hmac_digest kind key id_bytes secret_bytes ≡ ok g)
      × (parse_token b g.token kind
          ≡ ok (record {
            kind = kind;
            public_id = g.public_id;
            secret = encode_component b secret_bytes;
          }))
      × (parse_token b g.token (other kind) ≡ err invalid_api_key_error)
      × (verify_secret b hmac_digest (encode_component b secret_bytes) g.digest key ≡ true)
generate_token_round_trip b hmac_digest kind key id_bytes secret_bytes e f h = (
  record {
    token =
        token_of b hmac_digest kind (encode_component b id_bytes) (encode_component b secret_bytes);
    public_id = encode_component b id_bytes;
    digest = hmac_digest key (encode_component b secret_bytes);
  },
  generate_token-encoded b hmac_digest kind key id_bytes secret_bytes e f,
  parse_token-token b hmac_digest kind key id_bytes secret_bytes e f,
  parse_token-other b hmac_digest kind key id_bytes secret_bytes e f,
  verify_secret-digest b hmac_digest kind key id_bytes secret_bytes e f h,
)
