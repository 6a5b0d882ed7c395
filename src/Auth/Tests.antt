-- ===== src/Auth/Tests.antt =====
-- Principals and gates at concrete inputs.

use veloxrag.Prelude.{
  ◌≡◌, ◌↔◌, refl, true, some, [], ◌∷◌, codes, List, ℕ, length, ◌==◌, if◌then◌else◌, ok, err, ◌>>=◌,
}
use veloxrag.Auth.Policies.{
  Base64, ApiKey, AgentPrincipal, AdminPrincipal, retrieve, manage, answer, admin, agent,
  capability_of, capabilities_of, materialize_principal, is_canonical_public_id, require_admin,
  require_raw_file_read, require_capability, require_knowledge_base_access, require_document_read,
  insufficient_capability_error, resource_not_found_error,
}
use veloxrag.Auth.Gates.{
  MayReadRaw, require_raw_file_read_iff, require_raw_file_read-hides, require_admin-excludes,
}
use veloxrag.Auth.Codec.{
  GeneratedToken, agent_key, admin_key, generate_token, parse_token, verify_secret,
  invalid_api_key_error,
}
use veloxrag.Auth.Tokens.{IsEncoded, generate_token_round_trip}
use veloxrag.Auth.Principals.{IsAgentOf, materialize_principal-IsAgentOf}

-- A codec whose texts are their own bytes.
abbrev plain : Base64
plain = record { decode = λ t. some t; encode = λ t. t }

abbrev row : ApiKey
row = record {
  id = 1;
  public_id = codes "AAAAAAAAAAAAAAAAAAAAAA";
  key_type = "agent";
  capabilities = "retrieve" ∷ "answer" ∷ [];
  raw_file_read = true;
  requests_per_minute = some 60;
  max_concurrency = some 4;
}

abbrev reader : AgentPrincipal
reader = record {
  key_id = 1;
  public_id = codes "AAAAAAAAAAAAAAAAAAAAAA";
  capabilities = retrieve ∷ answer ∷ [];
  knowledge_base_ids = 5 ∷ 6 ∷ [];
  query_profile_ids = 8 ∷ [];
  default_query_profile_id = some 8;
  raw_file_read = true;
  requests_per_minute = 60;
  max_concurrency = 4;
}

abbrev operator : AdminPrincipal
operator = record { key_id = 2; public_id = codes "BBBBBBBBBBBBBBBBBBBBBB" }

made : materialize_principal plain row (5 ∷ 6 ∷ []) (8 ∷ []) (some 8) ≡ ok (agent reader)
unfolding materialize_principal is_canonical_public_id capabilities_of capability_of ◌>>=◌
made = refl

materialize_principal-IsAgentOf_example : IsAgentOf plain row (5 ∷ 6 ∷ []) (8 ∷ []) (some 8) reader
materialize_principal-IsAgentOf_example =
    materialize_principal-IsAgentOf plain row (5 ∷ 6 ∷ []) (8 ∷ []) (some 8) reader made

require_raw_file_read_iff_example :
    (require_raw_file_read (agent reader) 5 true ≡ ok reader)
    ↔ MayReadRaw (agent reader) 5 true reader
require_raw_file_read_iff_example = require_raw_file_read_iff (agent reader) 5 true reader

require_raw_file_read-hides_example :
    (require_knowledge_base_access (agent reader) 7 true ≡ err resource_not_found_error)
    × (require_document_read (agent reader) 7 true ≡ err resource_not_found_error)
    × (require_raw_file_read (agent reader) 7 true ≡ err resource_not_found_error)
require_raw_file_read-hides_example = require_raw_file_read-hides reader 7 true refl

is_operator : require_admin (admin operator) ≡ ok operator
unfolding require_admin
is_operator = refl

require_admin-excludes_example :
    (require_capability (admin operator) manage ≡ err insufficient_capability_error)
    × (require_knowledge_base_access (admin operator) 5 true ≡ err insufficient_capability_error)
    × (require_document_read (admin operator) 5 true ≡ err insufficient_capability_error)
    × (require_raw_file_read (admin operator) 5 true ≡ err insufficient_capability_error)
require_admin-excludes_example =
    require_admin-excludes (admin operator) operator manage 5 true is_operator

-- A codec that knows two texts, and a digest that is always the same.
abbrev id_text : List ℕ
id_text = codes "AAAAAAAAAAAAAAAAAAAAAA"

abbrev secret_text : List ℕ
secret_text = codes "BBBBBBBBBBBBBBBBBBBBBBBBBBBBBBBBBBBBBBBBBBB"

abbrev id_bytes : List ℕ
id_bytes = codes "0123456789abcdef"

abbrev secret_bytes : List ℕ
secret_bytes = codes "0123456789abcdef0123456789abcdef"

abbrev two_texts : Base64
two_texts = record {
  decode = λ t. some (if length t == 24 then id_bytes else secret_bytes);
  encode = λ t. if length t == 16 then id_text else secret_text;
}

abbrev constant_digest : List ℕ → List ℕ → List ℕ
constant_digest key text = secret_bytes

id_bytes-IsEncoded : IsEncoded two_texts 16 id_bytes
id_bytes-IsEncoded = record { size = refl; width = refl; alphabet = refl; restored = refl }

secret_bytes-IsEncoded : IsEncoded two_texts 32 secret_bytes
secret_bytes-IsEncoded = record { size = refl; width = refl; alphabet = refl; restored = refl }

generate_token_round_trip_example :
    (g : GeneratedToken) × (generate_token two_texts constant_digest agent_key
        (codes "k")
        id_bytes
        secret_bytes
      ≡ ok g)
    × (parse_token two_texts g.token agent_key
        ≡ ok (record { kind = agent_key; public_id = g.public_id; secret = secret_text }))
    × (parse_token two_texts g.token admin_key ≡ err invalid_api_key_error)
    × (verify_secret two_texts constant_digest secret_text g.digest (codes "k") ≡ true)
generate_token_round_trip_example =
    generate_token_round_trip two_texts constant_digest agent_key (codes "k") id_bytes secret_bytes
      id_bytes-IsEncoded secret_bytes-IsEncoded refl
