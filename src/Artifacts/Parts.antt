-- ===== src/Artifacts/Parts.antt =====
-- The parts of a key in ingestion/artifacts.py.
use mathlib.Core.List.{append_assoc}
use veloxrag.Prelude.{
  ℕ, ◌≡◌, refl, ◌∙◌, ap, sym, subst, Bool, true, false, ◌&&◌, &&-true, Option, none, some,
  eq_of_some, List, [], ◌∷◌, ◌++◌, codes, if◌then◌else◌, if-eq-some,
}
use veloxrag.Validation.Metadata.{equal_texts}
use veloxrag.Artifacts.{
  Uuids, DocumentArtifactIdentity, is_artifact, same_text, all_read, canonical_uuid,
  identity_of_parts, version_prefix,
}
use veloxrag.Artifacts.Split.{join}
use veloxrag.Artifacts.Names.{equal_texts_eq}

if-some {ℓ} :
    {A : Type ℓ} (b : Bool) (o : Option A) (a : A)
    → (if b then o else none) ≡ some a
    → (b ≡ true) × (o ≡ some a)
if-some true o a h = (refl, h)
if-some false o a h = cc

abbrev has_words : List ℕ → List ℕ → List ℕ → List ℕ → List ℕ → Bool
has_words a b c t n =
    equal_texts a (codes "knowledge-bases")
    && equal_texts b (codes "documents")
    && equal_texts c (codes "versions")
    && is_artifact t n

has_words-eq_true :
    (a b c t n : List ℕ)
    → has_words a b c t n ≡ true
    → (a ≡ codes "knowledge-bases")
      × (b ≡ codes "documents")
      × (c ≡ codes "versions")
      × (is_artifact t n ≡ true)
has_words-eq_true a b c t n h =
    let bases = equal_texts a (codes "knowledge-bases") in
    let documents = equal_texts b (codes "documents") in
    let versions = equal_texts c (codes "versions") in
    let (words, named) = &&-true (bases && documents && versions) (is_artifact t n) h in
    let (front, third) = &&-true (bases && documents) versions words in
    let (first, second) = &&-true bases documents front in
    (equal_texts_eq a _ first, equal_texts_eq b _ second, equal_texts_eq c _ third, named)

module _ (ids : Uuids) where
  abbrev pub key_parts : DocumentArtifactIdentity ids.Uuid → List ℕ → List (List ℕ)
  key_parts i name =
      codes "knowledge-bases"
      ∷ ids.uuid_text i.knowledge_base_id
      ∷ codes "documents"
      ∷ ids.uuid_text i.document_id
      ∷ codes "versions"
      ∷ ids.uuid_text i.version_id
      ∷ i.artifact_type
      ∷ name
      ∷ []

  -- The key of an identity with the last part of the key.
  abbrev pub key_of : DocumentArtifactIdentity ids.Uuid → List ℕ → List ℕ
  key_of i name =
      version_prefix ids i.knowledge_base_id i.document_id i.version_id
      ++ (b'/' ∷ (i.artifact_type ++ (b'/' ∷ name)))

  pub join_parts :
      (i : DocumentArtifactIdentity ids.Uuid) (name : List ℕ)
      → join b'/' (key_parts i name) ≡ key_of i name
  unfolding version_prefix
  join_parts i name = simp append_assoc

  same_text_eq :
      (part : List ℕ) (o : Option ids.Uuid) (id : ids.Uuid)
      → same_text ids.uuid_text part o ≡ some id
      → ids.uuid_text id ≡ part
  unfolding same_text
  same_text_eq part none id h = cc
  same_text_eq part (some x) id h =
      let (same, e) = if-eq-some (equal_texts (ids.uuid_text x) part) x id h in
      ap ids.uuid_text (sym e) ∙ equal_texts_eq (ids.uuid_text x) part same

  uuid_read :
      (part : List ℕ) (id : ids.Uuid) → canonical_uuid ids part ≡ some id → part ≡ ids.uuid_text id
  unfolding canonical_uuid
  uuid_read part id h = sym (same_text_eq part (ids.parse_uuid part) id h)

  all_read-eq_some :
      (t : List ℕ) (k d v : Option ids.Uuid) (i : DocumentArtifactIdentity ids.Uuid)
      → all_read t k d v ≡ some i
      → (k ≡ some i.knowledge_base_id)
        × (d ≡ some i.document_id)
        × (v ≡ some i.version_id)
        × (t ≡ i.artifact_type)
  all_read-eq_some t none d v i h = cc
  all_read-eq_some t (some k) none v i h = cc
  all_read-eq_some t (some k) (some d) none i h = cc
  all_read-eq_some t (some k) (some d) (some v) i h =
      let e = eq_of_some h in
      (
        ap (λ x. some x.knowledge_base_id) e,
        ap (λ x. some x.document_id) e,
        ap (λ x. some x.version_id) e,
        ap (λ x. x.artifact_type) e,
      )

  same_parts :
      (i : DocumentArtifactIdentity ids.Uuid) (a k b d c v t n : List ℕ)
      → a ≡ codes "knowledge-bases"
      → b ≡ codes "documents"
      → c ≡ codes "versions"
      → k ≡ ids.uuid_text i.knowledge_base_id
      → d ≡ ids.uuid_text i.document_id
      → v ≡ ids.uuid_text i.version_id
      → t ≡ i.artifact_type
      → a ∷ k ∷ b ∷ d ∷ c ∷ v ∷ t ∷ n ∷ [] ≡ key_parts i n
  same_parts i a k b d c v t n ea eb ec ek ed ev et = cc

  pub identity_of_eight :
      (a k b d c v t n : List ℕ)
      → identity_of_parts ids (a ∷ k ∷ b ∷ d ∷ c ∷ v ∷ t ∷ n ∷ []) ≡ (
          if has_words a b c t n
          then all_read t (canonical_uuid ids k) (canonical_uuid ids d) (canonical_uuid ids v)
          else none)
  unfolding identity_of_parts
  identity_of_eight a k b d c v t n = refl

  -- What the eight parts of a key are when an identity is read from them.
  pub identity_of_parts-eq_some :
      (parts : List (List ℕ)) (i : DocumentArtifactIdentity ids.Uuid)
      → identity_of_parts ids parts ≡ some i
      → (name : List ℕ) × (is_artifact i.artifact_type name ≡ true) × (parts ≡ key_parts i name)
  unfolding identity_of_parts
  identity_of_parts-eq_some [] i h = cc
  identity_of_parts-eq_some (a ∷ []) i h = cc
  identity_of_parts-eq_some (a ∷ k ∷ []) i h = cc
  identity_of_parts-eq_some (a ∷ k ∷ b ∷ []) i h = cc
  identity_of_parts-eq_some (a ∷ k ∷ b ∷ d ∷ []) i h = cc
  identity_of_parts-eq_some (a ∷ k ∷ b ∷ d ∷ c ∷ []) i h = cc
  identity_of_parts-eq_some (a ∷ k ∷ b ∷ d ∷ c ∷ v ∷ []) i h = cc
  identity_of_parts-eq_some (a ∷ k ∷ b ∷ d ∷ c ∷ v ∷ t ∷ []) i h = cc
  identity_of_parts-eq_some (a ∷ k ∷ b ∷ d ∷ c ∷ v ∷ t ∷ n ∷ x ∷ rest) i h = cc
  identity_of_parts-eq_some (a ∷ k ∷ b ∷ d ∷ c ∷ v ∷ t ∷ n ∷ []) i h =
      let (tests, read) =
        if-some (has_words a b c t n) _ i (sym (identity_of_eight a k b d c v t n) ∙ h) in
      let (first, second, third, named) = has_words-eq_true a b c t n tests in
      let (ek, ed, ev, et) = all_read-eq_some t _ _ _ i read in
      (
        n,
        subst (λ x. is_artifact x n ≡ true) et named,
        same_parts i a k b d c v t n first second third (uuid_read k _ ek) (uuid_read d _ ed)
            (uuid_read v _ ev) et,
      )
