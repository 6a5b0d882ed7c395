-- ===== src/Parsers/Titles/Paths.antt =====
-- `_title_path_id` of ingestion/parsers.py.

use veloxrag.Prelude.{
  ℕ, zero, suc, ◌≤◌, ◌<◌, ◌≡◌, refl, ap, subst, inl, inr, true, &&-true, Bool-cases, some, List, [],
  ◌∷◌, ◌++◌, ◌==◌, ==_iff, length, take, get_elem?, length-append, get_elem?-end, get_elem?-more,
  slice-end, All, ok, guard-ok_inv, eq_of_ok, >>=-eq-ok, arith,
}
use veloxrag.Prelude.Utf8.{encode_utf8}
use veloxrag.Parsers.Boundary.{Title}
use veloxrag.Parsers.Titles.{
  TitleTree, same_title, same_path, common_prefix, add_title_node, add_titles, node_start,
}
use veloxrag.Parsers.Titles.Laws.{
  IsText, HoldsTitle, Spells, IdsOf, IsTree, Grows, Grows-refl, Grows-trans, Spells-more,
}

same_title-eq : (s t : Title) → same_title s t ≡ true → s ≡ t
unfolding same_title
same_title-eq [] [] h = refl
same_title-eq [] (d ∷ t) h = cc
same_title-eq (c ∷ s) [] h = cc
same_title-eq (c ∷ s) (d ∷ t) h =
    let both = &&-true (c == d) (same_title s t) h in
    ground (arith, (==_iff c d).0 both.0, same_title-eq s t both.1)

pub same_path-eq : (p q : List Title) → same_path p q ≡ true → p ≡ q
unfolding same_path
same_path-eq [] [] h = refl
same_path-eq [] (t ∷ q) h = cc
same_path-eq (s ∷ p) [] h = cc
same_path-eq (s ∷ p) (t ∷ q) h =
    let both = &&-true (same_title s t) (same_path p q) h in
    ground (arith, same_title-eq s t both.0, same_path-eq p q both.1)

pub take-common_prefix :
    (p q : List Title) → take (common_prefix p q) p ≡ take (common_prefix p q) q
unfolding common_prefix
take-common_prefix [] q = refl
take-common_prefix (s ∷ p) [] = refl
take-common_prefix (s ∷ p) (t ∷ q) = elim (Bool-cases (same_title s t)) [
  | inl same ↦ rw same (ground (arith, same_title-eq s t same, take-common_prefix p q))
  | inr other ↦ rw other refl
]

-- What a new node holds, and the tree that it makes.
record IsNode (title : Title) (parent : ℕ) (tree grown : TitleTree) : Type 0 where
  pub holds : HoldsTitle grown (length tree.title_end_offsets) title
  pub below : get_elem? grown.title_parents (length tree.title_end_offsets) ≡ some parent
  pub still_tree : IsTree grown
  pub grows : Grows tree grown
  pub one_more : length grown.title_end_offsets ≡ suc (length tree.title_end_offsets)

length-append_one {ℓ} : {A : Type ℓ} (xs : List A) (x : A) → length (xs ++ x ∷ []) ≡ suc (length xs)
length-append_one xs x = omega (arith, length-append xs (x ∷ []))

node_start-end :
    (tree : TitleTree) (ends parents more : List ℕ) (i last : ℕ)
    → node_start tree i ≡ some last
    → tree.title_end_offsets ≡ ends
    → node_start
        (record {
          title_data = more;
          title_end_offsets = ends ++ length more ∷ [];
          title_parents = parents;
        })
        i
      ≡ some last
unfolding node_start
node_start-end tree ends parents more zero last h e = h
node_start-end tree ends parents more (suc i) last h e =
    get_elem?-more ends (length more ∷ []) i (rw e at h)

added-IsNode :
    (title : Title) (parent : ℕ) (tree : TitleTree)
    → IsTree tree
    → IsText title
    → IsNode title parent tree (record {
      title_data = tree.title_data ++ encode_utf8 title;
      title_end_offsets =
          tree.title_end_offsets ++ length (tree.title_data ++ encode_utf8 title) ∷ [];
      title_parents = tree.title_parents ++ parent ∷ [];
    })
unfolding node_start
added-IsNode title parent tree v text =
    let grown = tree.title_data ++ encode_utf8 title in
    let longer = length-append tree.title_data (encode_utf8 title) in
    record {
      holds = record {
        first = length tree.title_data;
        last = length grown;
        starts =
            node_start-end tree tree.title_end_offsets (tree.title_parents ++ parent ∷ []) grown
              (length tree.title_end_offsets) (length tree.title_data) v.starts_at_end refl;
        ends = get_elem?-end tree.title_end_offsets (length grown);
        in_order = omega (arith, longer);
        inside = omega arith;
        spelled = slice-end tree.title_data (encode_utf8 title);
        text = text;
      };
      below = rw (← v.same_length) (get_elem?-end tree.title_parents parent);
      still_tree = record {
        starts_at_end =
            rw (length-append_one tree.title_end_offsets (length grown))
              (get_elem?-end tree.title_end_offsets (length grown));
        same_length = omega (
          arith,
          length-append_one tree.title_end_offsets (length grown),
          length-append_one tree.title_parents parent,
          v.same_length,
        );
      };
      grows = record {
        more_data = encode_utf8 title;
        more_ends = length grown ∷ [];
        more_parents = parent ∷ [];
        grown_data = refl;
        grown_ends = refl;
        grown_parents = refl;
      };
      one_more = length-append_one tree.title_end_offsets (length grown);
    }

add_title_node-IsNode :
    (title : Title) (parent : ℕ) (tree grown : TitleTree)
    → add_title_node title parent tree ≡ ok grown
    → IsTree tree
    → IsText title
    → IsNode title parent tree grown
unfolding add_title_node
add_title_node-IsNode title parent tree grown e v text =
    subst (IsNode title parent tree) (guard-ok_inv _ _ e).1 (added-IsNode title parent tree v text)

get_elem?-lt {ℓ} :
    {A : Type ℓ} (xs : List A) (i : ℕ) {x : A} → get_elem? xs i ≡ some x → i < length xs
get_elem?-lt [] i h = cc
get_elem?-lt (y ∷ ys) zero h = omega arith
get_elem?-lt (y ∷ ys) (suc i) h = omega (arith, get_elem?-lt ys i h)

Spells-le :
    (tree : TitleTree) (id : ℕ) (path : List Title)
    → Spells tree id path
    → id ≤ length tree.title_end_offsets
Spells-le tree id [] h = omega arith
Spells-le tree id (title ∷ outer) h =
    omega (arith, h.1, get_elem?-lt tree.title_end_offsets h.0 h.2.ends)

-- The titles added below a path extend it.
pub add_titles-IdsOf :
    (rest : List Title) (parent : ℕ) (tree : TitleTree) (outer : List Title) (final : TitleTree)
    (ids : List ℕ)
    → add_titles rest parent tree ≡ ok (final, ids)
    → IsTree tree
    → Spells tree parent outer
    → All IsText rest
    → IdsOf final outer ids rest × IsTree final × Grows tree final
unfolding add_titles
add_titles-IdsOf [] parent tree outer final ids e v h t =
    let same = eq_of_ok e in
    rw (← ap (λ p. p.0) same, ← ap (λ p. p.1) same) (tt, v, Grows-refl tree)
add_titles-IdsOf (title ∷ rest) parent tree outer final ids e v h t =
    let (grown, added, more) = >>=-eq-ok (add_title_node title parent tree) _ e in
    let node = add_title_node-IsNode title parent tree grown added v t.0 in
    let ((final', ids'), tail, done) =
      >>=-eq-ok (add_titles rest (length grown.title_end_offsets) grown) _ more in
    let spells : Spells grown (length grown.title_end_offsets) (title ∷ outer) = (
      length tree.title_end_offsets,
      node.one_more,
      node.holds,
      parent,
      node.below,
      Spells-le tree parent outer h,
      Spells-more tree grown parent outer node.grows h,
    ) in
    let (below, still, grows) =
      add_titles-IdsOf rest (length grown.title_end_offsets) grown (title ∷ outer) final' ids' tail
        node.still_tree spells t.1 in
    let same = eq_of_ok done in
    rw (← ap (λ p. p.0) same, ← ap (λ p. p.1) same)
      (
        (
          Spells-more grown final' (length grown.title_end_offsets) (title ∷ outer) grows spells,
          below,
        ),
        still,
        Grows-trans tree grown final' node.grows grows,
      )
