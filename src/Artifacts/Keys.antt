-- ===== src/Artifacts/Keys.antt =====
-- The keys that are built and read in ingestion/artifacts.py.

use veloxrag.Prelude.{
  ℕ, ◌≡◌, refl, ◌∙◌, ap, sym, subst, inl, inr, ◌⊎◌, ◌↔◌, true, false, ◌&&◌, &&-true, some, List,
  ◌∷◌, ◌++◌, codes, ◌==◌, any, not, guard, ok, >>=-eq-ok, eq_of_ok, guard-ok_inv,
}
use veloxrag.Prelude.Python.{split, strip}
use veloxrag.Validation.Metadata.{
  UnicodeText, equal_texts, is_one_of, is_bad_filename, stem_of, extension_of, is_empty_text,
  unsupported_document_type, supported_extensions, canonical_source_extension, canonical_filename,
}
use veloxrag.Artifacts.{
  Uuids, DocumentArtifactIdentity, is_artifact, same_text, canonical_uuid, identity_of_parts,
  canonical_document_artifact_identity, version_prefix, source_key, source_object_key,
  parsed_text_object_key, chunks_object_key,
}
use veloxrag.Artifacts.Split.{join, join-split, split-join}
use veloxrag.Artifacts.Names.{
  equal_texts_same, IsNamed, is_artifact-IsNamed, IsNamed-is_artifact, IsNamed-IsPart,
}
use veloxrag.Artifacts.Parts.{
  key_parts, key_of, join_parts, identity_of_eight, identity_of_parts-eq_some,
}

extension_supported :
    (u : UnicodeText) (filename extension : List ℕ)
    → canonical_source_extension u filename ≡ ok extension
    → is_one_of supported_extensions extension ≡ true
unfolding canonical_source_extension canonical_filename
extension_supported u filename extension h =
    let name = u.normalize_nfc (strip filename) in
    let (named, checked, e) = >>=-eq-ok (canonical_filename u filename) _ h in
    let (passed, good, rest) =
      >>=-eq-ok (guard (not (is_bad_filename u name)) unsupported_document_type) _ checked in
    let supported = is_one_of supported_extensions (extension_of u name) in
    let (both, same) =
      guard-ok_inv (not (is_empty_text (stem_of name)) && supported) unsupported_document_type
        rest in
    subst (λ x. is_one_of supported_extensions x ≡ true) (ap (λ x. x.1) same ∙ eq_of_ok e)
      (&&-true (not (is_empty_text (stem_of name))) supported both).1

module _ (ids : Uuids) where
  -- The keys of the artifacts of an identity.
  abbrev pub IsKeyOf : DocumentArtifactIdentity ids.Uuid → List ℕ → Type 0
  IsKeyOf i key =
      let k = i.knowledge_base_id in
      let d = i.document_id in
      let v = i.version_id in
      ((i.artifact_type ≡ codes "source")
        × ((extension : List ℕ) × (is_one_of supported_extensions extension ≡ true)
            × (key ≡ source_key ids k d v extension)))
      ⊎ (((i.artifact_type ≡ codes "parsed") × (key ≡ parsed_text_object_key ids k d v))
          ⊎ ((i.artifact_type ≡ codes "chunks") × (key ≡ chunks_object_key ids k d v)))

  -- The parts behind the prefix, when the last two are known.
  key_of_named :
      (i : DocumentArtifactIdentity ids.Uuid) (name t n : List ℕ)
      → i.artifact_type ≡ t
      → name ≡ n
      → key_of ids i name
        ≡ version_prefix ids i.knowledge_base_id i.document_id i.version_id
          ++ (b'/' ∷ (t ++ (b'/' ∷ n)))
  key_of_named i name t n kind same = rw (kind, same) refl

  IsKeyOf-named :
      (i : DocumentArtifactIdentity ids.Uuid) (name : List ℕ)
      → IsNamed i.artifact_type name
      → IsKeyOf i (key_of ids i name)
  unfolding source_key parsed_text_object_key chunks_object_key
  IsKeyOf-named i name (inl (kind, (extension, supported, same))) =
      inl (kind, (extension, supported, key_of_named i name _ _ kind same))
  IsKeyOf-named i name (inr (inl (kind, same))) =
      inr (inl (kind, key_of_named i name _ _ kind same))
  IsKeyOf-named i name (inr (inr (kind, same))) =
      inr (inr (kind, key_of_named i name _ _ kind same))

  IsKeyOf-inv :
      (i : DocumentArtifactIdentity ids.Uuid) (key : List ℕ)
      → IsKeyOf i key
      → (name : List ℕ) × IsNamed i.artifact_type name × (key ≡ key_of ids i name)
  unfolding source_key parsed_text_object_key chunks_object_key
  IsKeyOf-inv i key (inl (kind, (extension, supported, same))) = (
    codes "source" ++ extension,
    inl (kind, (extension, supported, refl)),
    same ∙ sym (key_of_named i _ _ _ kind refl),
  )
  IsKeyOf-inv i key (inr (inl (kind, same))) =
      (codes "text.txt", inr (inl (kind, refl)), same ∙ sym (key_of_named i _ _ _ kind refl))
  IsKeyOf-inv i key (inr (inr (kind, same))) = (
    codes "recursive_text_v1.jsonl",
    inr (inr (kind, refl)),
    same ∙ sym (key_of_named i _ _ _ kind refl),
  )

  pub key-IsKeyOf :
      (key : List ℕ) (i : DocumentArtifactIdentity ids.Uuid)
      → canonical_document_artifact_identity ids key ≡ some i
      → IsKeyOf i key
  unfolding canonical_document_artifact_identity
  key-IsKeyOf key i h =
      let (name, named, parts) = identity_of_parts-eq_some ids (split b'/' key) i h in
      let whole : key_of ids i name ≡ key =
        sym (join_parts ids i name) ∙ ap (join b'/') (sym parts) ∙ join-split b'/' key in
      subst (IsKeyOf i) whole
        (IsKeyOf-named i name (is_artifact-IsNamed i.artifact_type name named))

  module _ (reads : (id : ids.Uuid) → ids.parse_uuid (ids.uuid_text id) ≡ some id)
      (no_slash : (id : ids.Uuid) → any (λ c. c == b'/') (ids.uuid_text id) ≡ false) where
    canonical_uuid-uuid_text : (id : ids.Uuid) → canonical_uuid ids (ids.uuid_text id) ≡ some id
    unfolding canonical_uuid same_text
    canonical_uuid-uuid_text id = rw (reads id, equal_texts_same (ids.uuid_text id)) refl

    identity_of_key_parts :
        (i : DocumentArtifactIdentity ids.Uuid) (name : List ℕ)
        → is_artifact i.artifact_type name ≡ true
        → identity_of_parts ids (key_parts ids i name) ≡ some i
    unfolding equal_texts
    identity_of_key_parts i name h =
        identity_of_eight ids _ _ _ _ _ _ i.artifact_type name
        ∙ rw
            (
              h,
              canonical_uuid-uuid_text i.knowledge_base_id,
              canonical_uuid-uuid_text i.document_id,
              canonical_uuid-uuid_text i.version_id,
            )
            refl

    split_key :
        (i : DocumentArtifactIdentity ids.Uuid) (name : List ℕ)
        → IsNamed i.artifact_type name
        → split b'/' (key_of ids i name) ≡ key_parts ids i name
    split_key i name named =
        let (kind, last) = IsNamed-IsPart i.artifact_type name named in
        ap (split b'/') (sym (join_parts ids i name))
        ∙ split-join b'/' _ _ refl (
          no_slash i.knowledge_base_id,
          (refl, (no_slash i.document_id, (refl, (no_slash i.version_id, (kind, (last, tt)))))),
        )

    IsKeyOf-key :
        (key : List ℕ) (i : DocumentArtifactIdentity ids.Uuid)
        → IsKeyOf i key
        → canonical_document_artifact_identity ids key ≡ some i
    unfolding canonical_document_artifact_identity
    IsKeyOf-key key i h =
        let (name, named, same) = IsKeyOf-inv i key h in
        ap (λ k. identity_of_parts ids (split b'/' k)) same
        ∙ ap (identity_of_parts ids) (split_key i name named)
        ∙ identity_of_key_parts i name (IsNamed-is_artifact i.artifact_type name named)

    -- The identity of an object's key is read if and only if the key is one that is built for the
    -- identity's artifact: the source's with a supported extension, the parsed text's or the
    -- chunks', if `UUID` reads the text of each identifier as the identifier and no such text has
    -- a slash.
    pub canonical_document_artifact_identity_iff :
        (key : List ℕ) (i : DocumentArtifactIdentity ids.Uuid)
        → (canonical_document_artifact_identity ids key ≡ some i) ↔ IsKeyOf i key
    canonical_document_artifact_identity_iff key i = (key-IsKeyOf key i, IsKeyOf-key key i)

    -- The key that is built for a source is read as that of a source with the same identifiers, if
    -- `UUID` reads the text of each identifier as the identifier and no such text has a slash.
    pub identity-source_object_key :
        (u : UnicodeText) (k d v : ids.Uuid) (filename key : List ℕ)
        → source_object_key ids u k d v filename ≡ ok key
        → canonical_document_artifact_identity ids key
          ≡ some (record {
            knowledge_base_id = k;
            document_id = d;
            version_id = v;
            artifact_type = codes "source";
          })
    unfolding source_object_key
    identity-source_object_key u k d v filename key h =
        let (extension, named, built) = >>=-eq-ok (canonical_source_extension u filename) _ h in
        IsKeyOf-key key _ (
          inl (
            refl,
            (extension, extension_supported u filename extension named, sym (eq_of_ok built)),
          ))
