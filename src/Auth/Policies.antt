-- ===== src/Auth/Policies.antt =====
-- auth/policies.py. Values have the types that their columns declare, so the checks of types at run
-- time pass; identifiers are numbers, sets are lists without order.
use Prim.Native.String.{String}
use text.Mathlib.Text.{◌==◌ as str_eq}
use veloxrag.Prelude.{
  ℕ, Bool, true, false, not, ◌&&◌, ◌||◌, Option, none, some, List, [], ◌∷◌, leb, ◌==◌,
  if◌then◌else◌, length, any, take, codes, ◌-◌, ◌%◌, ◌++◌, Checked, ok, err, ◌>>=◌, ◌>>◌, guard,
}

pub data Capability : Type 0 where
  ingest retrieve answer manage : Capability

pub record AdminPrincipal : Type 0 where
  pub key_id : ℕ
  pub public_id : List ℕ

pub record AgentPrincipal : Type 0 where
  pub key_id : ℕ
  pub public_id : List ℕ
  pub capabilities : List Capability
  pub knowledge_base_ids : List ℕ
  pub query_profile_ids : List ℕ
  pub default_query_profile_id : Option ℕ
  pub raw_file_read : Bool
  pub requests_per_minute : ℕ
  pub max_concurrency : ℕ

pub data Principal : Type 0 where
  admin : AdminPrincipal → Principal
  agent : AgentPrincipal → Principal

-- The columns of `ApiKey` that are read.
pub record ApiKey : Type 0 where
  pub id : ℕ
  pub public_id : List ℕ
  pub key_type : String
  pub capabilities : List String
  pub raw_file_read : Bool
  pub requests_per_minute : Option ℕ
  pub max_concurrency : Option ℕ

pub record BusinessError : Type 0 where
  pub status : ℕ
  pub code : String
  pub message : String

abbrev pub insufficient_capability_error : BusinessError
insufficient_capability_error = record {
  status = 403;
  code = "INSUFFICIENT_CAPABILITY";
  message = "Insufficient capability";
}

abbrev pub resource_not_found_error : BusinessError
resource_not_found_error = record {
  status = 404;
  code = "RESOURCE_NOT_FOUND";
  message = "Resource not found";
}

abbrev pub internal_error : BusinessError
internal_error = record { status = 500; code = "INTERNAL_ERROR"; message = "Internal server error" }

-- `base64`, with the alphabet of URLs: `decode` gives none where it raises, and takes and gives
-- padding.
pub record Base64 : Type 0 where
  pub decode : List ℕ → Option (List ℕ)
  pub encode : List ℕ → List ℕ

abbrev pub member : ℕ → List ℕ → Bool
member x [] = false
member x (y ∷ ys) = x == y || member x ys

abbrev pub same_codes : List ℕ → List ℕ → Bool
same_codes [] [] = true
same_codes (x ∷ xs) (y ∷ ys) = x == y && same_codes xs ys
same_codes _ _ = false

-- `[A-Za-z0-9_-]`
abbrev pub is_base64url : ℕ → Bool
is_base64url c =
    (leb b'A' c && leb c b'Z')
    || (leb b'a' c && leb c b'z')
    || (leb b'0' c && leb c b'9')
    || c == b'_'
    || c == b'-'

abbrev pub padding : ℕ → List ℕ
padding n = take ((4 - n % 4) % 4) (codes "===")

-- `rstrip("=")`
abbrev keep_unless_padding : ℕ → List ℕ → List ℕ
keep_unless_padding c [] = if c == b'=' then [] else c ∷ []
keep_unless_padding c (d ∷ ds) = c ∷ d ∷ ds

abbrev pub strip_padding : List ℕ → List ℕ
strip_padding [] = []
strip_padding (c ∷ cs) = keep_unless_padding c (strip_padding cs)

-- `_is_canonical_public_id`
unfoldable pub is_canonical_public_id : Base64 → List ℕ → Bool
is_canonical_public_id b value =
    leb 16 (length value)
    && leb (length value) 64
    && not (any (λ c. not (is_base64url c)) value)
    && (elim (b.decode (value ++ padding (length value))) [
      | none ↦ false
      | some decoded ↦ same_codes (strip_padding (b.encode decoded)) value
    ])

-- `Capability(value)`
unfoldable pub capability_of : String → Option Capability
capability_of value =
    if str_eq value "ingest"
    then some ingest
    else if str_eq value "retrieve"
    then some retrieve
    else if str_eq value "answer"
    then some answer
    else if str_eq value "manage"
    then some manage
    else none

abbrev pub both {ℓ} : {A : Type ℓ} → Option A → Option (List A) → Option (List A)
both (some a) (some rest) = some (a ∷ rest)
both _ _ = none

unfoldable pub capabilities_of : List String → Option (List Capability)
unfolding capability_of
capabilities_of [] = some []
capabilities_of (v ∷ vs) = both (capability_of v) (capabilities_of vs)

abbrev pub all_distinct : List String → Bool
all_distinct [] = true
all_distinct (v ∷ vs) = not (any (str_eq v) vs) && all_distinct vs

abbrev is_none {ℓ} : {A : Type ℓ} → Option A → Bool
is_none none = true
is_none (some _) = false

abbrev pub is_nil {ℓ} : {A : Type ℓ} → List A → Bool
is_nil [] = true
is_nil (_ ∷ _) = false

-- A limit that is set and from 1 to its maximum.
abbrev pub limit_in : ℕ → Option ℕ → Option ℕ
limit_in maximum none = none
limit_in maximum (some n) = if leb 1 n && leb n maximum then some n else none

abbrev pub in_scope : Option ℕ → List ℕ → Bool
in_scope none scope = true
in_scope (some id) scope = member id scope

abbrev pub present {ℓ} : {A : Type ℓ} → Option A → Checked BusinessError A
present none = err internal_error
present (some a) = ok a

module _ (b : Base64) (row : ApiKey) (knowledge_base_ids query_profile_ids : List ℕ)
    (default_query_profile_id : Option ℕ) where
  abbrev pub admin_from_row : Checked BusinessError Principal
  admin_from_row = do
    guard
        (is_nil row.capabilities
          && not row.raw_file_read
          && is_none row.requests_per_minute
          && is_none row.max_concurrency
          && is_nil knowledge_base_ids
          && is_nil query_profile_ids
          && is_none default_query_profile_id)
        internal_error
    ok (admin (record { key_id = row.id; public_id = row.public_id }))

  abbrev pub agent_from_row : Checked BusinessError Principal
  agent_from_row = do
    guard (leb (length row.capabilities) 4 && all_distinct row.capabilities) internal_error
    granted ← present (capabilities_of row.capabilities)
    requests ← present (limit_in 10000 row.requests_per_minute)
    concurrency ← present (limit_in 1000 row.max_concurrency)
    guard (in_scope default_query_profile_id query_profile_ids) internal_error
    ok (
        agent (record {
          key_id = row.id;
          public_id = row.public_id;
          capabilities = granted;
          knowledge_base_ids = knowledge_base_ids;
          query_profile_ids = query_profile_ids;
          default_query_profile_id = default_query_profile_id;
          raw_file_read = row.raw_file_read;
          requests_per_minute = requests;
          max_concurrency = concurrency;
        }))

  -- `materialize_principal`: all that `_materialize_principal` raises becomes one internal error.
  unfoldable pub materialize_principal : Checked BusinessError Principal
  materialize_principal = do
    guard (is_canonical_public_id b row.public_id) internal_error
    elim (str_eq row.key_type "admin") [
      | true ↦ admin_from_row
      | false ↦ if str_eq row.key_type "agent" then agent_from_row else err internal_error
    ]

-- The type of a principal has the key type with it.
unfoldable pub require_admin : Principal → Checked BusinessError AdminPrincipal
require_admin (admin a) = ok a
require_admin (agent _) = err insufficient_capability_error

-- `_require_agent`
unfoldable pub require_agent : Principal → Checked BusinessError AgentPrincipal
require_agent (agent a) = ok a
require_agent (admin _) = err insufficient_capability_error

abbrev pub same_capability : Capability → Capability → Bool
same_capability ingest ingest = true
same_capability retrieve retrieve = true
same_capability answer answer = true
same_capability manage manage = true
same_capability _ _ = false

-- `_has_capability`
abbrev pub has_capability : AgentPrincipal → Capability → Bool
has_capability a c = any (λ granted. same_capability granted c) a.capabilities

unfoldable pub require_capability : Principal → Capability → Checked BusinessError AgentPrincipal
require_capability p c = do
  a ← require_agent p
  guard (has_capability a c) insufficient_capability_error
  ok a

unfoldable pub require_knowledge_base_access :
    Principal → ℕ → Bool → Checked BusinessError AgentPrincipal
require_knowledge_base_access p id resource_exists = do
  a ← require_agent p
  guard resource_exists resource_not_found_error
  guard (member id a.knowledge_base_ids) resource_not_found_error
  ok a

abbrev pub document_read_capabilities : List Capability
document_read_capabilities = manage ∷ ingest ∷ retrieve ∷ []

unfoldable pub require_document_read : Principal → ℕ → Bool → Checked BusinessError AgentPrincipal
require_document_read p id parent_exists = do
  a ← require_agent p
  _ ← require_knowledge_base_access (agent a) id parent_exists
  guard (any (has_capability a) document_read_capabilities) insufficient_capability_error
  ok a

unfoldable pub require_raw_file_read : Principal → ℕ → Bool → Checked BusinessError AgentPrincipal
require_raw_file_read p id parent_exists = do
  a ← require_document_read p id parent_exists
  guard a.raw_file_read insufficient_capability_error
  ok a
