-- ===== src/Parsers/Titles/Interning.antt =====
-- The identifiers that `_title_path_id` of ingestion/parsers.py gives to paths of titles.
use mathlib.Core.List.{reverse_aux, reverse_aux-reverse_aux-nil}
use veloxrag.Prelude.{
  ℕ, zero, suc, ◌≡◌, refl, ap, subst, inl, inr, Bool-cases, List, [], ◌∷◌, ◌++◌, take, drop,
  take-append-drop, All, ok, ◌>>=◌, eq_of_ok, >>=-eq-ok, arith,
}
use veloxrag.Parsers.Boundary.{Title}
use veloxrag.Parsers.Titles.{
  TitleTree, Titles, no_titles, same_path, common_prefix, last_id, add_titles, title_path_id,
  node_start, title_path,
}
use veloxrag.Parsers.Titles.Laws.{
  IsText, Spells, IdsOf, IsTree, Grows, Grows-refl, IdsOf-more, walk-Spells,
}
use veloxrag.Parsers.Titles.Paths.{same_path-eq, take-common_prefix, add_titles-IdsOf}

-- The tree is sound, and the identifiers that are kept stand for the path that is kept.
pub record IsTitles (titles : Titles) : Type 0 where
  pub sound : IsTree titles.tree
  pub ids : IdsOf titles.tree [] titles.last_title_node_ids titles.last_title_path

pub no_titles-IsTitles : IsTitles no_titles
unfolding node_start
no_titles-IsTitles = record {
  sound = record { starts_at_end = refl; same_length = refl };
  ids = tt;
}

IdsOf-take :
    (n : ℕ) (tree : TitleTree) (outer : List Title) (ids : List ℕ) (path : List Title)
    → IdsOf tree outer ids path
    → IdsOf tree outer (take n ids) (take n path)
IdsOf-take zero tree outer ids path h = tt
IdsOf-take (suc n) tree outer [] [] h = tt
IdsOf-take (suc n) tree outer [] (title ∷ rest) h = h
IdsOf-take (suc n) tree outer (id ∷ ids) [] h = h
IdsOf-take (suc n) tree outer (id ∷ ids) (title ∷ rest) h =
    (h.0, IdsOf-take n tree (title ∷ outer) ids rest h.1)

IdsOf-append :
    (tree : TitleTree) (outer : List Title) (ids more : List ℕ) (path rest : List Title)
    → IdsOf tree outer ids path
    → IdsOf tree (reverse_aux path outer) more rest
    → IdsOf tree outer (ids ++ more) (path ++ rest)
IdsOf-append tree outer [] more [] rest h k = k
IdsOf-append tree outer [] more (title ∷ path) rest h k = absurd h
IdsOf-append tree outer (id ∷ ids) more [] rest h k = absurd h
IdsOf-append tree outer (id ∷ ids) more (title ∷ path) rest h k =
    (h.0, IdsOf-append tree (title ∷ outer) ids more path rest h.1 k)

last_id-Spells :
    (tree : TitleTree) (outer : List Title) (parent : ℕ) (ids : List ℕ) (path : List Title)
    → IdsOf tree outer ids path
    → Spells tree parent outer
    → Spells tree (last_id parent ids) (reverse_aux path outer)
unfolding last_id
last_id-Spells tree outer parent [] [] h k = k
last_id-Spells tree outer parent [] (title ∷ path) h k = absurd h
last_id-Spells tree outer parent (id ∷ ids) [] h k = absurd h
last_id-Spells tree outer parent (id ∷ ids) (title ∷ path) h k =
    last_id-Spells tree (title ∷ outer) id ids path h.1 h.0

All-drop {ℓ κ} : {A : Type ℓ} (P : A → Type κ) (n : ℕ) (xs : List A) → All P xs → All P (drop n xs)
All-drop P zero xs h = h
All-drop P (suc n) [] h = h
All-drop P (suc n) (x ∷ xs) h = All-drop P n xs h.1

-- What a path's identifier is, and what the call does to the builder's titles.
pub record Interned (path : List Title) (before after : Titles) (id : ℕ) : Type 0 where
  pub spells : Spells after.tree id (reverse_aux path [])
  pub titles_ok : IsTitles after
  pub grows : Grows before.tree after.tree

extend_path :
    (path : List Title) (titles : Titles) (final : TitleTree) (more : List ℕ)
    → let prefix = common_prefix titles.last_title_path path in
      let kept = take prefix titles.last_title_node_ids in
      add_titles (drop prefix path) (last_id 0 kept) titles.tree ≡ ok (final, more)
      → IsTitles titles
      → All IsText path
      → IdsOf final [] (kept ++ more) path × IsTree final × Grows titles.tree final
extend_path path titles final more e v t =
    let prefix = common_prefix titles.last_title_path path in
    let kept = take prefix titles.last_title_node_ids in
    let shared : IdsOf titles.tree [] kept (take prefix path) =
      subst (IdsOf titles.tree [] kept) (take-common_prefix titles.last_title_path path) (
        IdsOf-take prefix titles.tree [] titles.last_title_node_ids titles.last_title_path v.ids) in
    let (below, sound, grows) =
      add_titles-IdsOf (drop prefix path) (last_id 0 kept) titles.tree
        (reverse_aux (take prefix path) []) final more e v.sound
        (last_id-Spells titles.tree [] 0 kept (take prefix path) shared refl)
        (All-drop IsText prefix path t) in
    (
      subst (IdsOf final [] (kept ++ more)) (take-append-drop prefix path) (
          IdsOf-append final [] kept more (take prefix path) (drop prefix path)
            (IdsOf-more titles.tree final [] kept (take prefix path) grows shared) below),
      sound,
      grows,
    )

pub title_path_id-Interned :
    (path : List Title) (titles after : Titles) (id : ℕ)
    → title_path_id path titles ≡ ok (after, id)
    → IsTitles titles
    → All IsText path
    → Interned path titles after id
unfolding title_path_id
title_path_id-Interned path titles after id e v t =
    elim (Bool-cases (same_path path titles.last_title_path)) [
      | inl same ↦
          let unchanged = eq_of_ok (rw same at e) in
          rw
            (
              ← ap (λ p. p.0) unchanged,
              ← ap (λ p. p.1) unchanged,
              same_path-eq path titles.last_title_path same,
            )
            (record {
              spells =
                  last_id-Spells titles.tree [] 0 titles.last_title_node_ids titles.last_title_path
                    v.ids refl;
              titles_ok = v;
              grows = Grows-refl titles.tree;
            })
      | inr other ↦
          let ((final, more), added, done) = >>=-eq-ok _ _ (rw other at e) in
          let changed = eq_of_ok done in
          let (ids, sound, grows) = extend_path path titles final more added v t in
          rw (← ap (λ p. p.0) changed, ← ap (λ p. p.1) changed)
            (record {
              spells = last_id-Spells final [] 0 _ path ids refl;
              titles_ok = record { sound = sound; ids = ids };
              grows = grows;
            })
    ]

-- The path that is read back is the one that the identifier was made of.
pub title_path-Spells :
    (tree : TitleTree) (id : ℕ) (path : List Title)
    → Spells tree id (reverse_aux path [])
    → title_path tree id ≡ ok path
unfolding title_path
title_path-Spells tree id path h =
    rw (walk-Spells id tree id (reverse_aux path []) (omega arith) h, ◌>>=◌)
      (ap ok (reverse_aux-reverse_aux-nil path []))
