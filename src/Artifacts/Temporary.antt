-- ===== src/Artifacts/Temporary.antt =====
-- The keys of temporary objects in ingestion/artifacts.py.
use veloxrag.Prelude.{
  ℕ, ◌≡◌, refl, ap, inl, inr, not, ◌||◌, Option-cases, none, List, any, length, ltb, ◌==◌, get_or,
  guard, guard-ok_inv, ok, >>=-eq-ok, arith,
}
use veloxrag.Prelude.Utf8.{encode_utf8}
use veloxrag.Prelude.Python.{split}
use veloxrag.Validation.Metadata.{UnicodeText, is_empty_text}
use veloxrag.Artifacts.{
  Uuids, DocumentArtifactIdentity, canonical_document_artifact_identity, version_prefix, source_key,
  parsed_text_object_key, chunks_object_key, invalid_artifact_name, starts_with_slash,
  is_bad_segment, temporary_key, temporary_object_key,
}
use veloxrag.Artifacts.Keys.{IsKeyOf, key-IsKeyOf}

module _ (ids : Uuids) where
  pub temporary_object_key-key :
      (u : UnicodeText) (job_id : ids.Uuid) (lease_epoch : ℕ) (artifact_name key : List ℕ)
      → temporary_object_key ids u job_id lease_epoch artifact_name ≡ ok key
      → temporary_key ids job_id lease_epoch artifact_name ≡ key
  unfolding temporary_object_key
  temporary_object_key-key u job_id lease_epoch artifact_name key h =
      let (a, sized, after) =
        >>=-eq-ok
          (guard (not (is_empty_text artifact_name || ltb 512 (length artifact_name)))
            invalid_artifact_name)
          _ h in
      let (b, relative, rest) =
        >>=-eq-ok
          (guard (not (any (λ c. c == b'\\') artifact_name || starts_with_slash artifact_name))
            invalid_artifact_name)
          _ after in
      let (c, safe, last) =
        >>=-eq-ok
          (guard (not (any (is_bad_segment u) (split b'/' artifact_name))) invalid_artifact_name) _
          rest in
      (guard-ok_inv
        (not (ltb 1024 (length (encode_utf8 (temporary_key ids job_id lease_epoch artifact_name)))))
        invalid_artifact_name last).1

  -- Keys of artifacts start with another letter than those of temporary objects.
  first_letter :
      (i : DocumentArtifactIdentity ids.Uuid) (key : List ℕ)
      → IsKeyOf ids i key
      → get_or key 0 0 ≡ b'k'
  unfolding source_key parsed_text_object_key chunks_object_key version_prefix
  first_letter i key (inl (kind, (extension, supported, same))) = ap (λ k. get_or k 0 0) same
  first_letter i key (inr (inl (kind, same))) = ap (λ k. get_or k 0 0) same
  first_letter i key (inr (inr (kind, same))) = ap (λ k. get_or k 0 0) same

  temporary_letter :
      (job_id : ids.Uuid) (lease_epoch : ℕ) (artifact_name : List ℕ)
      → get_or (temporary_key ids job_id lease_epoch artifact_name) 0 0 ≡ b't'
  unfolding temporary_key
  temporary_letter job_id lease_epoch artifact_name = refl

  -- No key that is built for a temporary object is read as the key of a document's artifact.
  pub temporary_object_key-none :
      (u : UnicodeText) (job_id : ids.Uuid) (lease_epoch : ℕ) (artifact_name key : List ℕ)
      → temporary_object_key ids u job_id lease_epoch artifact_name ≡ ok key
      → canonical_document_artifact_identity ids key ≡ none
  temporary_object_key-none u job_id lease_epoch artifact_name key h =
      elim (Option-cases (canonical_document_artifact_identity ids key)) [
        | inl unread ↦ unread
        | inr (i, read) ↦
            let built = temporary_object_key-key u job_id lease_epoch artifact_name key h in
            absurd (
              omega (
                arith,
                temporary_letter job_id lease_epoch artifact_name,
                ap (λ k. get_or k 0 0) built,
                first_letter i key (key-IsKeyOf ids key i read),
              ))
      ]
