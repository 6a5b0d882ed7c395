-- ===== src/Artifacts/Names.antt =====
-- The types and names of artifacts in ingestion/artifacts.py.

use veloxrag.Prelude.{
  ℕ, ◌≡◌, refl, ◌∙◌, ap, sym, subst, inl, inr, ◌⊎◌, Bool, true, false, ◌&&◌, ◌||◌, &&-true, ==_iff,
  List, [], ◌∷◌, ◌++◌, codes, ◌==◌,
}
use veloxrag.Validation.Metadata.{equal_texts, is_one_of, supported_extensions}
use veloxrag.Artifacts.{source_names, is_artifact}
use veloxrag.Artifacts.Split.{IsPart}

same_character : (c : ℕ) → (c == c) ≡ true
same_character c = (==_iff c c).1 refl

pub equal_texts_same : (t : List ℕ) → equal_texts t t ≡ true
unfolding equal_texts
equal_texts_same [] = refl
equal_texts_same (c ∷ t) = rw (same_character c, equal_texts_same t) refl

pub equal_texts_eq : (s t : List ℕ) → equal_texts s t ≡ true → s ≡ t
unfolding equal_texts
equal_texts_eq [] [] h = refl
equal_texts_eq [] (d ∷ t) h = cc
equal_texts_eq (c ∷ s) [] h = cc
equal_texts_eq (c ∷ s) (d ∷ t) h =
    let (here, there) = &&-true (c == d) (equal_texts s t) h in
    ap (λ x. x ∷ s) ((==_iff c d).0 here) ∙ ap (λ r. d ∷ r) (equal_texts_eq s t there)

||-cases : (a b : Bool) → (a || b) ≡ true → (a ≡ true) ⊎ (b ≡ true)
||-cases true b h = inl refl
||-cases false b h = inr h

-- The last part of a key with the type of its artifact.
abbrev pub IsNamed : List ℕ → List ℕ → Type 0
IsNamed artifact_type name =
    ((artifact_type ≡ codes "source")
      × ((extension : List ℕ) × (is_one_of supported_extensions extension ≡ true)
          × (name ≡ codes "source" ++ extension)))
    ⊎ (((artifact_type ≡ codes "parsed") × (name ≡ codes "text.txt"))
        ⊎ ((artifact_type ≡ codes "chunks") × (name ≡ codes "recursive_text_v1.jsonl")))

source_named :
    (name : List ℕ)
    → is_one_of source_names name ≡ true
    → (extension : List ℕ) × (is_one_of supported_extensions extension ≡ true)
      × (name ≡ codes "source" ++ extension)
unfolding is_one_of equal_texts
source_named name h = elim (||-cases (equal_texts name (codes "source.txt")) _ h) [
  | inl text ↦ (codes ".txt", refl, equal_texts_eq name _ text)
  | inr others ↦ elim (||-cases (equal_texts name (codes "source.md")) _ others) [
    | inl short ↦ (codes ".md", refl, equal_texts_eq name _ short)
    | inr rest ↦ elim (||-cases (equal_texts name (codes "source.markdown")) _ rest) [
      | inl long ↦ (codes ".markdown", refl, equal_texts_eq name _ long)
      | inr never ↦ cc
    ]
  ]
]

both_equal :
    (t n artifact_type name : List ℕ)
    → (equal_texts t artifact_type && equal_texts n name) ≡ true
    → (t ≡ artifact_type) × (n ≡ name)
both_equal t n artifact_type name h =
    let (left, right) = &&-true (equal_texts t artifact_type) (equal_texts n name) h in
    (equal_texts_eq t artifact_type left, equal_texts_eq n name right)

pub is_artifact-IsNamed :
    (artifact_type name : List ℕ)
    → is_artifact artifact_type name ≡ true
    → IsNamed artifact_type name
unfolding is_artifact
is_artifact-IsNamed t n h = elim (||-cases _ (equal_texts t (codes "chunks") && _) h) [
  | inr chunks ↦ inr (inr (both_equal t n _ _ chunks))
  | inl others ↦ elim (||-cases _ (equal_texts t (codes "parsed") && _) others) [
    | inr parsed ↦ inr (inl (both_equal t n _ _ parsed))
    | inl source ↦
        let (kind, name) = &&-true (equal_texts t (codes "source")) _ source in
        inl (equal_texts_eq t _ kind, source_named n name)
  ]
]

supported-cases :
    (extension : List ℕ)
    → is_one_of supported_extensions extension ≡ true
    → (extension ≡ codes ".txt") ⊎ ((extension ≡ codes ".md") ⊎ (extension ≡ codes ".markdown"))
unfolding is_one_of
supported-cases e h = elim (||-cases (equal_texts e (codes ".txt")) _ h) [
  | inl text ↦ inl (equal_texts_eq e _ text)
  | inr others ↦ elim (||-cases (equal_texts e (codes ".md")) _ others) [
    | inl short ↦ inr (inl (equal_texts_eq e _ short))
    | inr rest ↦ elim (||-cases (equal_texts e (codes ".markdown")) _ rest) [
      | inl long ↦ inr (inr (equal_texts_eq e _ long))
      | inr never ↦ cc
    ]
  ]
]

-- What holds of the supported extensions.
supported_all {ℓ} :
    (P : List ℕ → Type ℓ) (extension : List ℕ)
    → is_one_of supported_extensions extension ≡ true
    → P (codes ".txt")
    → P (codes ".md")
    → P (codes ".markdown")
    → P extension
supported_all P e h text short long = elim (supported-cases e h) [
  | inl same ↦ subst P (sym same) text
  | inr (inl same) ↦ subst P (sym same) short
  | inr (inr same) ↦ subst P (sym same) long
]

named_source :
    (extension : List ℕ)
    → is_one_of supported_extensions extension ≡ true
    → is_artifact (codes "source") (codes "source" ++ extension) ≡ true
unfolding is_artifact
named_source e h =
    supported_all (λ x. is_artifact (codes "source") (codes "source" ++ x) ≡ true) e h refl refl
      refl

IsPart-source :
    (extension : List ℕ)
    → is_one_of supported_extensions extension ≡ true
    → IsPart b'/' (codes "source" ++ extension)
IsPart-source e h = supported_all (λ x. IsPart b'/' (codes "source" ++ x)) e h refl refl refl

pub IsNamed-IsPart :
    (artifact_type name : List ℕ)
    → IsNamed artifact_type name
    → IsPart b'/' artifact_type × IsPart b'/' name
IsNamed-IsPart t n (inl (kind, (extension, supported, name))) =
    rw (kind, name) (refl, IsPart-source extension supported)
IsNamed-IsPart t n (inr (inl (kind, name))) = rw (kind, name) (refl, refl)
IsNamed-IsPart t n (inr (inr (kind, name))) = rw (kind, name) (refl, refl)

pub IsNamed-is_artifact :
    (artifact_type name : List ℕ)
    → IsNamed artifact_type name
    → is_artifact artifact_type name ≡ true
unfolding is_artifact
IsNamed-is_artifact t n (inl (kind, (extension, supported, name))) =
    rw (kind, name) (named_source extension supported)
IsNamed-is_artifact t n (inr (inl (kind, name))) = rw (kind, name) refl
IsNamed-is_artifact t n (inr (inr (kind, name))) = rw (kind, name) refl
