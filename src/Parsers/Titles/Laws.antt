-- ===== src/Parsers/Titles/Laws.antt =====
-- The tree of titles of ingestion/parsers.py: what an identifier stands for.
use mathlib.Core.List.{append_assoc, append-nil}
use veloxrag.Prelude.{
  ℕ, zero, suc, ◌≤◌, ◌≡◌, refl, ◌∙◌, sym, true, some, List, [], ◌∷◌, ◌++◌, length, slice, get_elem?,
  length-append, get_elem?-more, slice-more, All, ok, ◌>>=◌, arith,
}
use veloxrag.Prelude.Utf8.{is_scalar, encode_utf8, decode_utf8-encode_utf8}
use veloxrag.Parsers.Boundary.{Title}
use veloxrag.Parsers.Titles.{TitleTree, node_start, decode_title_node, walk, read_elem, read_text}

-- A text without surrogates.
abbrev pub IsText : Title → Type 0
IsText title = All (λ c. is_scalar c ≡ true) title

-- The node with an index has a title.
pub record HoldsTitle (tree : TitleTree) (i : ℕ) (title : Title) : Type 0 where
  pub first : ℕ
  pub last : ℕ
  pub starts : node_start tree i ≡ some first
  pub ends : get_elem? tree.title_end_offsets i ≡ some last
  pub in_order : first ≤ last
  pub inside : last ≤ length tree.title_data
  pub spelled : slice tree.title_data first last ≡ encode_utf8 title
  pub text : IsText title

-- An identifier stands for a path, which is given from the innermost title outwards.
abbrev pub Spells : TitleTree → ℕ → List Title → Type 0
Spells tree id [] = id ≡ 0
Spells tree id (title ∷ outer) =
    (i : ℕ) × (id ≡ suc i)
    × HoldsTitle tree i title
    × (parent : ℕ) × (get_elem? tree.title_parents i ≡ some parent)
    × (parent ≤ i)
    × Spells tree parent outer

-- Each identifier of a list stands for the path up to its title, below an outer path.
abbrev pub IdsOf : TitleTree → List Title → List ℕ → List Title → Type 0
IdsOf tree outer [] [] = Unit
IdsOf tree outer [] (title ∷ rest) = ⊥
IdsOf tree outer (id ∷ ids) [] = ⊥
IdsOf tree outer (id ∷ ids) (title ∷ rest) =
    Spells tree id (title ∷ outer) × IdsOf tree (title ∷ outer) ids rest

-- The next node starts where the texts end, and each node has a parent.
pub record IsTree (tree : TitleTree) : Type 0 where
  pub starts_at_end :
      node_start tree (length tree.title_end_offsets) ≡ some (length tree.title_data)
  pub same_length : length tree.title_parents ≡ length tree.title_end_offsets

-- The columns of a tree are the first part of those of another.
pub record Grows (tree tree' : TitleTree) : Type 0 where
  pub more_data : List ℕ
  pub more_ends : List ℕ
  pub more_parents : List ℕ
  pub grown_data : tree'.title_data ≡ tree.title_data ++ more_data
  pub grown_ends : tree'.title_end_offsets ≡ tree.title_end_offsets ++ more_ends
  pub grown_parents : tree'.title_parents ≡ tree.title_parents ++ more_parents

pub Grows-refl : (tree : TitleTree) → Grows tree tree
Grows-refl tree = record {
  more_data = [];
  more_ends = [];
  more_parents = [];
  grown_data = sym (append-nil tree.title_data);
  grown_ends = sym (append-nil tree.title_end_offsets);
  grown_parents = sym (append-nil tree.title_parents);
}

pub Grows-trans : (t u v : TitleTree) → Grows t u → Grows u v → Grows t v
Grows-trans t u v g h = record {
  more_data = g.more_data ++ h.more_data;
  more_ends = g.more_ends ++ h.more_ends;
  more_parents = g.more_parents ++ h.more_parents;
  grown_data = h.grown_data ∙ rw g.grown_data (append_assoc t.title_data g.more_data h.more_data);
  grown_ends =
      h.grown_ends ∙ rw g.grown_ends (append_assoc t.title_end_offsets g.more_ends h.more_ends);
  grown_parents =
      h.grown_parents
      ∙ rw g.grown_parents (append_assoc t.title_parents g.more_parents h.more_parents);
}

node_start-more :
    (tree tree' : TitleTree) (i : ℕ) {first : ℕ}
    → Grows tree tree'
    → node_start tree i ≡ some first
    → node_start tree' i ≡ some first
unfolding node_start
node_start-more tree tree' zero g h = h
node_start-more tree tree' (suc i) g h =
    rw g.grown_ends (get_elem?-more tree.title_end_offsets g.more_ends i h)

HoldsTitle-more :
    (tree tree' : TitleTree) (i : ℕ) (title : Title)
    → Grows tree tree'
    → HoldsTitle tree i title
    → HoldsTitle tree' i title
HoldsTitle-more tree tree' i title g h = record {
  first = h.first;
  last = h.last;
  starts = node_start-more tree tree' i g h.starts;
  ends = rw g.grown_ends (get_elem?-more tree.title_end_offsets g.more_ends i h.ends);
  in_order = h.in_order;
  inside = rw g.grown_data (omega (arith, length-append tree.title_data g.more_data, h.inside));
  spelled =
      rw g.grown_data (slice-more tree.title_data g.more_data h.first h.last h.in_order h.inside)
      ∙ h.spelled;
  text = h.text;
}

pub Spells-more :
    (tree tree' : TitleTree) (id : ℕ) (path : List Title)
    → Grows tree tree'
    → Spells tree id path
    → Spells tree' id path
Spells-more tree tree' id [] g h = h
Spells-more tree tree' id (title ∷ outer) g h = (
  h.0,
  h.1,
  HoldsTitle-more tree tree' h.0 title g h.2,
  h.3,
  rw g.grown_parents (get_elem?-more tree.title_parents g.more_parents h.0 h.4),
  h.5,
  Spells-more tree tree' h.3 outer g h.6,
)

pub IdsOf-more :
    (tree tree' : TitleTree) (outer : List Title) (ids : List ℕ) (path : List Title)
    → Grows tree tree'
    → IdsOf tree outer ids path
    → IdsOf tree' outer ids path
IdsOf-more tree tree' outer [] [] g h = tt
IdsOf-more tree tree' outer [] (title ∷ rest) g h = h
IdsOf-more tree tree' outer (id ∷ ids) [] g h = h
IdsOf-more tree tree' outer (id ∷ ids) (title ∷ rest) g h = (
  Spells-more tree tree' id (title ∷ outer) g h.0,
  IdsOf-more tree tree' (title ∷ outer) ids rest g h.1,
)

decode-HoldsTitle :
    (tree : TitleTree) (i : ℕ) (title : Title)
    → HoldsTitle tree i title
    → decode_title_node tree i ≡ ok title
unfolding decode_title_node read_elem read_text ◌>>=◌
decode-HoldsTitle tree i title h =
    rw
      (
        h.starts,
        read_elem,
        ◌>>=◌,
        h.ends,
        read_elem,
        ◌>>=◌,
        h.spelled,
        decode_utf8-encode_utf8 title h.text,
        read_text,
      )
      refl

-- `_title_path` reads the path that an identifier stands for.
pub walk-Spells :
    (fuel : ℕ) (tree : TitleTree) (id : ℕ) (path : List Title)
    → id ≤ fuel
    → Spells tree id path
    → walk fuel tree id ≡ ok path
unfolding walk read_elem ◌>>=◌
walk-Spells zero tree id [] b h = rw h refl
walk-Spells (suc fuel) tree id [] b h = rw h refl
walk-Spells zero tree id (title ∷ outer) b h = absurd (omega (arith, h.1))
walk-Spells (suc fuel) tree id (title ∷ outer) b h =
    rw
      (
        h.1,
        walk,
        decode-HoldsTitle tree h.0 title h.2,
        ◌>>=◌,
        h.4,
        read_elem,
        ◌>>=◌,
        walk-Spells fuel tree h.3 outer (omega (arith, h.1, h.5)) h.6,
        ◌>>=◌,
      )
      refl
