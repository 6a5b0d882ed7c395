-- ===== src/Artifacts.antt =====
-- The keys of objects in ingestion/artifacts.py. `uuid.UUID` and what comes from `unicodedata` are
-- parameters.
pub mod Split
pub mod Names
pub mod Parts
pub mod Keys
pub mod Temporary
pub mod Segments
pub mod Tests
use veloxrag.Prelude.{
  ℕ, Bool, ◌&&◌, ◌||◌, Option, none, some, List, [], ◌∷◌, ◌++◌, codes, if◌then◌else◌, Checked, ok,
  ◌>>=◌, ◌>>◌, guard, not, any, length, ltb, ◌==◌, ◌+◌, ◌/◌, ◌%◌, zero, suc, true, false,
}
use veloxrag.Prelude.Utf8.{encode_utf8}
use veloxrag.Prelude.Python.{split}
use veloxrag.Validation.Metadata.{
  UnicodeText, ValidationFailure, equal_texts, is_one_of, is_empty_text, canonical_source_extension,
}

-- `uuid.UUID`: the texts of identifiers, and the reading of a text, which may raise `ValueError`.
pub record Uuids : Type 1 where
  pub Uuid : Type 0
  pub uuid_text : Uuid → List ℕ
  pub parse_uuid : List ℕ → Option Uuid

pub record DocumentArtifactIdentity (Uuid : Type 0) : Type 0 where
  pub knowledge_base_id : Uuid
  pub document_id : Uuid
  pub version_id : Uuid
  pub artifact_type : List ℕ

abbrev pub source_names : List (List ℕ)
source_names = codes "source.txt" ∷ codes "source.md" ∷ codes "source.markdown" ∷ []

-- The types and names of artifacts that go together.
unfoldable pub is_artifact : List ℕ → List ℕ → Bool
unfolding equal_texts is_one_of
is_artifact artifact_type artifact_name =
    (equal_texts artifact_type (codes "source") && is_one_of source_names artifact_name)
    || (equal_texts artifact_type (codes "parsed") && equal_texts artifact_name (codes "text.txt"))
    || (equal_texts artifact_type (codes "chunks")
        && equal_texts artifact_name (codes "recursive_text_v1.jsonl"))

-- `str(identifier) != part`
unfoldable pub same_text {ℓ} : {A : Type ℓ} → (A → List ℕ) → List ℕ → Option A → Option A
unfolding equal_texts
same_text text part none = none
same_text text part (some id) = if equal_texts (text id) part then some id else none

abbrev pub all_read :
    {A : Type 0} → List ℕ → Option A → Option A → Option A → Option (DocumentArtifactIdentity A)
all_read artifact_type (some k) (some d) (some v) = some (record {
  knowledge_base_id = k;
  document_id = d;
  version_id = v;
  artifact_type = artifact_type;
})
all_read artifact_type k d v = none

-- What `ValueError` says of a key that cannot be built.
pub data ArtifactFailure : Type 0 where
  invalid_artifact_name : ArtifactFailure

-- The decimal digits of a number, with fuel for their count.
unfoldable pub digits : ℕ → ℕ → List ℕ
digits zero n = []
digits (suc fuel) n =
    let front = digits fuel (n / 10) in
    if ltb n 10 then (b'0' + n) ∷ [] else front ++ ((b'0' + n % 10) ∷ [])

-- `str(n)`.
unfoldable pub decimal : ℕ → List ℕ
unfolding digits
decimal n = digits (suc n) n

unfoldable pub starts_with_slash : List ℕ → Bool
starts_with_slash [] = false
starts_with_slash (c ∷ rest) = c == b'/'

-- The condition on which `temporary_object_key` rejects a segment of a name.
unfoldable pub is_bad_segment : UnicodeText → List ℕ → Bool
unfolding is_one_of is_empty_text
is_bad_segment u segment =
    is_empty_text segment
    || is_one_of (codes "." ∷ codes ".." ∷ []) segment
    || any (λ c. c == 0) segment
    || any (λ c. (u.category c).0 == b'C') segment
    || ltb 255 (length (encode_utf8 segment))

module _ (ids : Uuids) where
  -- The identifier of a part that is the identifier's own text.
  unfoldable pub canonical_uuid : List ℕ → Option ids.Uuid
  unfolding same_text
  canonical_uuid part = same_text ids.uuid_text part (ids.parse_uuid part)

  unfoldable pub identity_of_parts : List (List ℕ) → Option (DocumentArtifactIdentity ids.Uuid)
  unfolding equal_texts is_artifact canonical_uuid
  identity_of_parts (a ∷ k ∷ b ∷ d ∷ c ∷ v ∷ artifact_type ∷ artifact_name ∷ []) =
      if equal_texts a (codes "knowledge-bases")
        && equal_texts b (codes "documents")
        && equal_texts c (codes "versions")
        && is_artifact artifact_type artifact_name
      then all_read artifact_type (canonical_uuid k) (canonical_uuid d) (canonical_uuid v)
      else none
  identity_of_parts _ = none

  unfoldable pub canonical_document_artifact_identity :
      List ℕ → Option (DocumentArtifactIdentity ids.Uuid)
  unfolding identity_of_parts split
  canonical_document_artifact_identity object_key = identity_of_parts (split b'/' object_key)

  -- `_version_prefix`
  unfoldable pub version_prefix : ids.Uuid → ids.Uuid → ids.Uuid → List ℕ
  version_prefix knowledge_base_id document_id version_id =
      codes "knowledge-bases/"
      ++ (ids.uuid_text knowledge_base_id
          ++ (codes "/documents/"
              ++ (ids.uuid_text document_id ++ (codes "/versions/" ++ ids.uuid_text version_id))))

  -- The key of a source with an extension.
  unfoldable pub source_key : ids.Uuid → ids.Uuid → ids.Uuid → List ℕ → List ℕ
  unfolding version_prefix
  source_key knowledge_base_id document_id version_id extension =
      version_prefix knowledge_base_id document_id version_id
      ++ (codes "/source/source" ++ extension)

  unfoldable pub source_object_key :
      UnicodeText → ids.Uuid → ids.Uuid → ids.Uuid → List ℕ → Checked ValidationFailure (List ℕ)
  unfolding ◌>>=◌ canonical_source_extension source_key
  source_object_key u knowledge_base_id document_id version_id filename =
      canonical_source_extension u filename >>= λ extension.
      ok (source_key knowledge_base_id document_id version_id extension)

  unfoldable pub parsed_text_object_key : ids.Uuid → ids.Uuid → ids.Uuid → List ℕ
  unfolding version_prefix
  parsed_text_object_key knowledge_base_id document_id version_id =
      version_prefix knowledge_base_id document_id version_id ++ codes "/parsed/text.txt"

  unfoldable pub chunks_object_key : ids.Uuid → ids.Uuid → ids.Uuid → List ℕ
  unfolding version_prefix
  chunks_object_key knowledge_base_id document_id version_id =
      version_prefix knowledge_base_id document_id version_id
      ++ codes "/chunks/recursive_text_v1.jsonl"

  -- The key of a temporary object, when its name has passed the checks.
  unfoldable pub temporary_key : ids.Uuid → ℕ → List ℕ → List ℕ
  unfolding decimal
  temporary_key job_id lease_epoch artifact_name =
      codes "tmp/jobs/"
      ++ (ids.uuid_text job_id ++ (b'/' ∷ (decimal lease_epoch ++ (b'/' ∷ artifact_name))))

  unfoldable pub temporary_object_key :
      UnicodeText → ids.Uuid → ℕ → List ℕ → Checked ArtifactFailure (List ℕ)
  unfolding ◌>>=◌ temporary_key is_bad_segment starts_with_slash is_empty_text split
  temporary_object_key u job_id lease_epoch artifact_name =
      let key = temporary_key job_id lease_epoch artifact_name in
      guard (not (is_empty_text artifact_name || ltb 512 (length artifact_name)))
        invalid_artifact_name
      >> (guard (not (any (λ c. c == b'\\') artifact_name || starts_with_slash artifact_name))
            invalid_artifact_name
          >> (guard (not (any (is_bad_segment u) (split b'/' artifact_name))) invalid_artifact_name
              >> (guard (not (ltb 1024 (length (encode_utf8 key)))) invalid_artifact_name
                  >> ok key)))
