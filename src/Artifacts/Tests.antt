-- ===== src/Artifacts/Tests.antt =====
-- The keys of objects at the nil and the maximal UUID.
use veloxrag.Prelude.{
  ℕ, Bool, true, false, ◌≡◌, ◌↔◌, refl, ltb, if◌then◌else◌, Option, some, none, List, ◌∷◌, All,
  ◌++◌, any, ◌==◌, codes, ok, ◌>>=◌,
}
use veloxrag.Prelude.Utf8.{encode_utf8}
use veloxrag.Prelude.Python.{split, strip, after_first, before_first}
use veloxrag.Validation.Metadata.{UnicodeText, equal_texts, canonical_source_extension}
use veloxrag.Artifacts.{
  Uuids, DocumentArtifactIdentity, source_object_key, canonical_document_artifact_identity,
  temporary_object_key, temporary_key, digits, decimal,
}
use veloxrag.Artifacts.Segments.{IsSafe, temporary_object_key-IsSafe}
use veloxrag.Artifacts.Temporary.{temporary_object_key-none}
use veloxrag.Artifacts.Keys.{
  IsKeyOf, canonical_document_artifact_identity_iff, identity-source_object_key,
}

abbrev nil_text : List ℕ
nil_text = codes "00000000-0000-0000-0000-000000000000"

abbrev max_text : List ℕ
max_text = codes "ffffffff-ffff-ffff-ffff-ffffffffffff"

abbrev text_of : Bool → List ℕ
text_of false = nil_text
text_of true = max_text

read_text : List ℕ → Option Bool
unfolding equal_texts
read_text text =
    if equal_texts text nil_text
    then some false
    else (if equal_texts text max_text then some true else none)

abbrev two_uuids : Uuids
two_uuids = record { Uuid = Bool; uuid_text = text_of; parse_uuid = read_text }

two_uuids-reads : (id : Bool) → two_uuids.parse_uuid (two_uuids.uuid_text id) ≡ some id
unfolding read_text
two_uuids-reads false = refl
two_uuids-reads true = refl

two_uuids-no_slash : (id : Bool) → any (λ c. c == b'/') (two_uuids.uuid_text id) ≡ false
two_uuids-no_slash false = refl
two_uuids-no_slash true = refl

abbrev plain_letters : UnicodeText
plain_letters = record {
  category = λ c. if ltb c 32 then (b'C', b'c') else (b'L', b'l');
  normalize_nfc = λ s. s;
  lower = λ s. s;
}

abbrev source_identity : DocumentArtifactIdentity Bool
source_identity = record {
  knowledge_base_id = false;
  document_id = true;
  version_id = false;
  artifact_type = codes "source";
}

abbrev prefix : List ℕ
prefix =
    codes "knowledge-bases/00000000-0000-0000-0000-000000000000"
    ++ codes "/documents/ffffffff-ffff-ffff-ffff-ffffffffffff"
    ++ codes "/versions/00000000-0000-0000-0000-000000000000"

abbrev source_text : List ℕ
source_text = prefix ++ codes "/source/source.md"

source_built :
    source_object_key two_uuids plain_letters false true false (codes "notes.md") ≡ ok source_text
unfolding source_object_key canonical_source_extension ◌>>=◌ strip encode_utf8 after_first
    before_first
source_built = refl

canonical_document_artifact_identity_iff_example :
    (canonical_document_artifact_identity two_uuids source_text ≡ some source_identity)
    ↔ IsKeyOf two_uuids source_identity source_text
canonical_document_artifact_identity_iff_example =
    canonical_document_artifact_identity_iff two_uuids two_uuids-reads two_uuids-no_slash
      source_text source_identity

identity-source_object_key_example :
    canonical_document_artifact_identity two_uuids source_text ≡ some source_identity
identity-source_object_key_example =
    identity-source_object_key two_uuids two_uuids-reads two_uuids-no_slash plain_letters false true
      false (codes "notes.md") source_text source_built

abbrev temporary_text : List ℕ
temporary_text =
    codes "tmp/jobs/ffffffff-ffff-ffff-ffff-ffffffffffff" ++ codes "/120/stage/text.txt"

temporary_built :
    temporary_object_key two_uuids plain_letters true 120 (codes "stage/text.txt")
    ≡ ok temporary_text
unfolding temporary_object_key ◌>>=◌ encode_utf8 split digits temporary_key decimal
temporary_built = refl

temporary_object_key-none_example :
    canonical_document_artifact_identity two_uuids temporary_text ≡ none
temporary_object_key-none_example =
    temporary_object_key-none two_uuids plain_letters true 120 (codes "stage/text.txt")
      temporary_text temporary_built

temporary_object_key-IsSafe_example :
    (split b'/' temporary_text
      ≡ codes "tmp" ∷ codes "jobs" ∷ max_text ∷ decimal 120 ∷ split b'/' (codes "stage/text.txt"))
    × All IsSafe (split b'/' (codes "stage/text.txt"))
temporary_object_key-IsSafe_example =
    temporary_object_key-IsSafe two_uuids two_uuids-no_slash plain_letters true 120
      (codes "stage/text.txt") temporary_text temporary_built
