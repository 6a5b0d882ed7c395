-- ===== src/Parsers/Titles.antt =====
-- The tree of titles of ingestion/parsers.py: packed texts, where each ends, and their parents.
pub mod Laws
pub mod Paths
pub mod Interning
use veloxrag.Prelude.{
  ℕ, zero, suc, ◌+◌, ◌-◌, Bool, true, false, ◌&&◌, Option, none, some, List, [], ◌∷◌, ◌++◌, reverse,
  ltb, leb, ◌==◌, if◌then◌else◌, length, take, drop, slice, get_elem?, Checked, ok, err, ◌>>=◌,
  ◌>>◌, guard,
}
use veloxrag.Prelude.Utf8.{encode_utf8, decode_utf8, fresh_decoder, Decoder}
use veloxrag.Parsers.Boundary.{
  Title, ParserFailure, invalid_boundary, out_of_range, undecodable, stalled,
}
use veloxrag.Parsers.Storage.{fits_word}

-- The columns of the tree, which only grow.
pub record TitleTree : Type 0 where
  pub title_data : List ℕ
  pub title_end_offsets : List ℕ
  pub title_parents : List ℕ

-- The builder's fields for titles.
pub record Titles : Type 0 where
  pub tree : TitleTree
  pub last_title_path : List Title
  pub last_title_node_ids : List ℕ

abbrev pub no_titles : Titles
no_titles = record {
  tree = record { title_data = []; title_end_offsets = []; title_parents = [] };
  last_title_path = [];
  last_title_node_ids = [];
}

unfoldable pub same_title : Title → Title → Bool
same_title [] [] = true
same_title (c ∷ s) (d ∷ t) = c == d && same_title s t
same_title s t = false

-- `previous == current` of two paths
unfoldable pub same_path : List Title → List Title → Bool
unfolding same_title
same_path [] [] = true
same_path (s ∷ p) (t ∷ q) = same_title s t && same_path p q
same_path p q = false

-- The loop over `zip`, which ends at the first difference.
unfoldable pub common_prefix : List Title → List Title → ℕ
unfolding same_title
common_prefix (s ∷ p) (t ∷ q) = if same_title s t then suc (common_prefix p q) else 0
common_prefix p q = 0

-- `ids[-1] if ids else 0`
unfoldable pub last_id : ℕ → List ℕ → ℕ
last_id parent [] = parent
last_id parent (id ∷ rest) = last_id id rest

-- One round of the loop that adds titles.
unfoldable pub add_title_node : Title → ℕ → TitleTree → Checked ParserFailure TitleTree
unfolding fits_word encode_utf8
add_title_node title parent tree =
    let grown = tree.title_data ++ encode_utf8 title in
    guard (fits_word (length grown) && fits_word parent) invalid_boundary
    >> ok (record {
      title_data = grown;
      title_end_offsets = tree.title_end_offsets ++ length grown ∷ [];
      title_parents = tree.title_parents ++ parent ∷ [];
    })

-- The loop that adds titles below a parent: the tree, and the identifiers of the new nodes.
unfoldable pub add_titles : List Title → ℕ → TitleTree → Checked ParserFailure (TitleTree × List ℕ)
unfolding ◌>>=◌ add_title_node
add_titles [] parent tree = ok (tree, [])
add_titles (title ∷ rest) parent tree = do
  grown ← add_title_node title parent tree
  let node = length grown.title_end_offsets
  (final, ids) ← add_titles rest node grown
  ok (final, node ∷ ids)

-- `_title_path_id`
unfoldable pub title_path_id : List Title → Titles → Checked ParserFailure (Titles × ℕ)
unfolding ◌>>=◌ same_path common_prefix last_id add_titles
title_path_id path titles =
    let prefix = common_prefix titles.last_title_path path in
    let kept = take prefix titles.last_title_node_ids in
    if same_path path titles.last_title_path
    then ok (titles, last_id 0 titles.last_title_node_ids)
    else add_titles (drop prefix path) (last_id 0 kept) titles.tree >>= λ added. ok (
      record { tree = added.0; last_title_path = path; last_title_node_ids = kept ++ added.1 },
      last_id 0 (kept ++ added.1),
    )

-- `_decode_title_node`: where the text of a node starts.
unfoldable pub node_start : TitleTree → ℕ → Option ℕ
node_start tree zero = some 0
node_start tree (suc i) = get_elem? tree.title_end_offsets i

unfoldable pub read_elem : Option ℕ → Checked ParserFailure ℕ
read_elem none = err out_of_range
read_elem (some n) = ok n

unfoldable pub read_text : Option (Decoder × List ℕ) → Checked ParserFailure Title
read_text none = err undecodable
read_text (some (d, text)) = if d.needed == 0 then ok text else err undecodable

unfoldable pub decode_title_node : TitleTree → ℕ → Checked ParserFailure Title
unfolding ◌>>=◌ node_start read_elem read_text decode_utf8
decode_title_node tree title_index = do
  first ← read_elem (node_start tree title_index)
  last ← read_elem (get_elem? tree.title_end_offsets title_index)
  read_text (decode_utf8 fresh_decoder (slice tree.title_data first last))

-- The loop of `_title_path`, from a node to the root. A parent has a smaller identifier, so that
-- the identifier is fuel enough.
unfoldable pub walk : ℕ → TitleTree → ℕ → Checked ParserFailure (List Title)
unfolding ◌>>=◌ decode_title_node read_elem
walk fuel tree zero = ok []
walk zero tree (suc i) = err stalled
walk (suc fuel) tree (suc i) = do
  title ← decode_title_node tree i
  parent ← read_elem (get_elem? tree.title_parents i)
  outer ← walk fuel tree parent
  ok (title ∷ outer)

-- `_title_path`
unfoldable pub title_path : TitleTree → ℕ → Checked ParserFailure (List Title)
unfolding ◌>>=◌ walk
title_path tree path_id = walk path_id tree path_id >>= λ titles. ok (reverse titles)
