-- ===== src/Ingestion/Tests.antt =====
-- A plain-text document from its bytes to its chunks.
use veloxrag.Prelude.{ℕ, ◌≡◌, refl, none, List, [], ◌∷◌, map, ltb, if◌then◌else◌, codes, ok}
use veloxrag.Prelude.Utf8.{encode_utf8}
use veloxrag.Prelude.Python.{after_first, before_first, is_blank_text, strip}
use veloxrag.Validation.Metadata.{UnicodeText, validate_document_metadata}
use veloxrag.Validation.Incremental.{new_validator, feed, finish}
use veloxrag.Validation.Document.{validate_document, decode_strict, normalize_text}
use veloxrag.Parsers.Boundary.{Title, validate_boundary}
use veloxrag.Parsers.Runs.{add_record, store_rest}
use veloxrag.Parsers.Titles.{title_path_id}
use veloxrag.Parsers.Builder
use veloxrag.Parsers.Builder.{from_sequence, extend, add_all, add, add_checked, iterate}
use veloxrag.Parsers.Artifact.{
  ParsedArtifact, new_artifact, validate_for_text_length, check_segments, check_segment,
  read_template, check_cycle, has_valid_fields,
}
use veloxrag.Chunkers.Grapheme.{UnicodeData}
use veloxrag.Chunkers.Index.{packed, index_boundaries}
use veloxrag.Chunkers.Loop.{Config, done, is_sha256, new_chunker, chunk}
use veloxrag.Chunkers.Loop.Tiling.{Tiles}
use veloxrag.Parsers.PlainText.{paragraphs, iter_lines, plain_boundaries, parse_plain_text}
use veloxrag.Ingestion.{parse_plain_text-Tiles}

abbrev ascii : UnicodeData
ascii = record { category = λ c. (b'L', b'l'); name = λ c. []; combining = λ c. 0 }

abbrev constant_hash : List ℕ → List Title → List ℕ
constant_hash part path = codes "0123456789abcdef0123456789abcdef0123456789abcdef0123456789abcdef"

abbrev plain_characters : UnicodeText
plain_characters = record {
  category = λ c. if ltb c 32 then (b'C', b'c') else (b'L', b'l');
  normalize_nfc = λ s. s;
  lower = λ s. s;
}

abbrev no_digest : List ℕ → List ℕ
no_digest bytes = []

-- Two paragraphs, with both kinds of newline.
abbrev source : List ℕ
source = 0xef ∷ 0xbb ∷ 0xbf ∷ b'a' ∷ b'b' ∷ 0x0d ∷ 0x0a ∷ 0x0a ∷ b'c' ∷ b'd' ∷ 0x0d ∷ []

abbrev parsed_artifact : ParsedArtifact
parsed_artifact = record {
  text = b'a' ∷ b'b' ∷ 0x0a ∷ 0x0a ∷ b'c' ∷ b'd' ∷ 0x0a ∷ [];
  boundaries = record {
    storage = record {
      templates = record { code = 1; start = 0; size = 2; title_path_id = 0; level = 0 } ∷ [];
      segments =
          record {
            template_start = 0;
            template_count = 1;
            repeat_count = 2;
            first_start = 0;
            stride = 4;
            cumulative_count = 2;
          }
          ∷ [];
    };
    tree = record { title_data = []; title_end_offsets = []; title_parents = [] };
  };
  parser_name = codes "plain_text_v1";
  parser_version = codes "1";
}

source_parsed : parse_plain_text plain_characters no_digest source ≡ ok parsed_artifact
unfolding parse_plain_text validate_document new_validator feed finish decode_strict normalize_text
    validate_document_metadata plain_boundaries from_sequence extend Builder.finish add_all add
    add_checked title_path_id add_record store_rest validate_boundary new_artifact
    validate_for_text_length check_segments check_segment has_valid_fields encode_utf8 strip
    after_first before_first is_blank_text read_template check_cycle
source_parsed = refl

abbrev parse_config : Config
parse_config = record { max_chunk_codepoints = 4; target_overlap_codepoints = 1 }

parse_plain_text-Tiles_example :
    let index = index_boundaries (packed parsed_artifact.boundaries) in
    let run = chunk ascii constant_hash parse_config parsed_artifact.text "plain_text_v1" index in
    (iterate parsed_artifact.boundaries
      ≡ map ok (paragraphs none 0 (iter_lines parsed_artifact.text)))
    × (run.outcome ≡ done)
    × Tiles parsed_artifact.text 4 0 0 0 run.chunks
unfolding new_chunker is_sha256
parse_plain_text-Tiles_example =
    parse_plain_text-Tiles plain_characters no_digest source parsed_artifact source_parsed ascii
      constant_hash 4 1 parse_config refl (λ part path. refl)
