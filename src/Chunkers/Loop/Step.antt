-- ===== src/Chunkers/Loop/Step.antt =====
-- One round of the chunking loop (ingestion/chunkers.py), with the loop's invariant.
use Prim.Native.String.{String}
use veloxrag.Prelude.{
  ℕ, ◌+◌, ◌-◌, ◌≤◌, ◌<◌, ◌≡◌, refl, ◌⊎◌, inl, inr, Bool, true, false, ◌&&◌, some, List, [], ◌∷◌,
  arith, ltb, leb, ◌==◌, length, slice, any-slice, length-slice, Bool-cases, lt→leb_false, lt→ltb,
  ==_iff, ==_false, sym, le→ltb_false, leb→le, leb_false→lt,
}
use veloxrag.Chunkers.Grapheme.{UnicodeData, safe_start}
use veloxrag.Chunkers.Grapheme.Safe.{safe_start_lem}
use veloxrag.Parsers.Boundary.{Title}
use veloxrag.Chunkers.Index.{BoundaryIndex}
use veloxrag.Chunkers.Choose.Bounds.{InWindow, choose_end_window, choose_overlap_start_window}
use veloxrag.Chunkers.Loop.Tiling.{Fits}
use veloxrag.Chunkers.Loop.{
  Chunk, Config, State, Round, retry, emit, finish, is_sha256, valid_titles, has_code, valid_chunk,
  is_empty, is_blank_text, source_chunk, from_source, widen, next_start, after_chunk,
  reduce_overlap, hard_end_of, chosen_end, yield_chunk, round,
}

-- What holds at the head of the loop on a text that is not empty.
pub record Inv (text : List ℕ) (s : State) : Type 0 where
  pub behind : s.start ≤ s.previous_end
  pub before_end : s.previous_end < length text

-- How a round may end that starts in `s`.
abbrev pub Good : List ℕ → ℕ → State → Round → Type 0
Good text limit s (retry s') =
    Inv text s'
    × (s.start < s'.start)
    × (s'.previous_end ≡ s.previous_end)
    × (s'.chunk_index ≡ s.chunk_index)
Good text limit s (emit c s') =
    Inv text s'
    × (s.start < s'.start)
    × (s'.previous_end ≡ c.end_offset)
    × (s'.chunk_index ≡ s.chunk_index + 1)
    × (c.start_offset ≡ s.start)
    × Fits text limit s.previous_end s.start s.chunk_index c
Good text limit s (finish c) =
    Fits text limit s.previous_end s.start s.chunk_index c × (c.end_offset ≡ length text)
Good text limit s _ = ⊥

module _ (u : UnicodeData) (chunk_hash : List ℕ → List Title → List ℕ) (config : Config)
    (text : List ℕ) (name : String) (index : BoundaryIndex)
    (roomy : config.target_overlap_codepoints < config.max_chunk_codepoints)
    (no_null : has_code 0 text ≡ false) (no_return : has_code 0x0d text ≡ false)
    (titles : (offset : ℕ)
      → (path : List Title) × (index.title_path_at offset ≡ some path) × (valid_titles path ≡ true))
    (digests : (part : List ℕ) (path : List Title) → is_sha256 (chunk_hash part path) ≡ true) where
  abbrev limit : ℕ
  limit = config.max_chunk_codepoints

  abbrev part_chunk : List Title → ℕ → ℕ → ℕ → Chunk
  part_chunk = source_chunk u chunk_hash config text name index

  is_empty-false : (xs : List ℕ) → 0 < length xs → is_empty xs ≡ false
  is_empty-false [] h = elim h [ ]
  is_empty-false (x ∷ xs) h = refl

  part_chunk-valid :
      (path : List Title) (i start end : ℕ)
      → valid_titles path ≡ true
      → start < end
      → end ≤ length text
      → valid_chunk (part_chunk path i start end) ≡ true
  unfolding valid_chunk source_chunk
  part_chunk-valid path i start end good h k =
      let part = slice text start end in
      let size = length-slice text start end (omega arith) k in
      rw (
        is_empty-false part (omega arith),
        any-slice (λ c. c == 0) text start end no_null,
        any-slice (λ c. c == 0x0d) text start end no_return,
        lt→ltb start end h,
        (==_iff (end - start) (length part)).1 (sym size),
        good,
        digests part path,
      )

  from_source-some :
      (path : List Title) (i start end : ℕ)
      → valid_titles path ≡ true
      → start < end
      → end ≤ length text
      → from_source u chunk_hash config text name index path i start end
        ≡ some (part_chunk path i start end)
  unfolding from_source
  from_source-some path i start end good h k = rw (
    lt→leb_false start end h,
    le→ltb_false (length text) end k,
    part_chunk-valid path i start end good h k,
  )

  reduce_overlap-Good :
      (s : State)
      → Inv text s
      → s.start < s.previous_end
      → Good text limit s (reduce_overlap u chunk_hash config text name index s)
  unfolding reduce_overlap
  reduce_overlap-Good s v h =
      let target = safe_start u text (s.start + 1) s.previous_end s.start in
      let (low, high, _, _) =
        safe_start_lem u text s.start (s.start + 1) s.previous_end (omega arith) in
      rw (lt→leb_false s.start target (omega arith), le→ltb_false s.previous_end target high)
        (record { behind = high; before_end = v.before_end }, omega arith, refl, refl)

  part_chunk-Fits :
      (path : List Title) (s : State) (end : ℕ)
      → Inv text s
      → s.previous_end < end
      → end ≤ length text
      → end ≤ s.start + limit
      → Fits text limit s.previous_end s.start s.chunk_index
          (part_chunk path s.chunk_index s.start end)
  unfolding source_chunk
  part_chunk-Fits path s end v a b c = record {
    index = refl;
    content = refl;
    start_grows = omega arith;
    no_gap = v.behind;
    end_grows = a;
    inside = b;
    bounded = c;
  }

  next_start_window :
      (start end : ℕ) (suppress : Bool)
      → start < end
      → InWindow start end (next_start u chunk_hash config text name index start end suppress)
  unfolding next_start
  next_start_window start end true h = omega arith
  next_start_window start end false h =
      choose_overlap_start_window u text name index start _ end (omega arith) (omega arith)

  after_chunk-Good :
      (path : List Title) (s : State) (end : ℕ) (suppress : Bool)
      → Inv text s
      → s.previous_end < end
      → end ≤ length text
      → end ≤ s.start + limit
      → Good text limit s (
          after_chunk u chunk_hash config text name index s end suppress
            (part_chunk path s.chunk_index s.start end))
  unfolding after_chunk source_chunk
  after_chunk-Good path s end suppress v a b c =
      let fits = part_chunk-Fits path s end v a b c in
      let next = next_start u chunk_hash config text name index s.start end suppress in
      let (low, high) = next_start_window s.start end suppress (omega (arith, v.behind)) in
      elim (Bool-cases (end == length text)) [
        | inl e ↦ rw e (fits, (==_iff _ _).0 e)
        | inr e ↦
            let open_end = ==_false _ _ e in
            rw (e, lt→leb_false s.start next low, le→ltb_false end next high)
              (record { behind = high; before_end = omega arith }, low, refl, refl, refl, fits)
      ]

  yield_chunk-Good :
      (s : State) (end : ℕ) (suppress : Bool)
      → Inv text s
      → s.previous_end < end
      → end ≤ length text
      → end ≤ s.start + limit
      → Good text limit s (yield_chunk u chunk_hash config text name index s end suppress)
  unfolding yield_chunk
  yield_chunk-Good s end suppress v a b c =
      let (path, found, good) = titles s.start in
      let made = from_source-some path s.chunk_index s.start end good (omega (arith, v.behind)) b in
      rw (found, made, yield_chunk) (after_chunk-Good path s end suppress v a b c)

  abbrev hard : State → ℕ
  hard = hard_end_of u chunk_hash config text name index

  hard_end_bounds :
      (s : State)
      → Inv text s
      → (s.start < hard s) × (hard s ≤ length text) × (hard s ≤ s.start + limit)
  unfolding hard_end_of
  hard_end_bounds s v = omega (arith, v.behind, v.before_end)

  overlap_fits :
      (s : State)
      → ((hard s == length text) ≡ true) ⊎ (s.start + config.target_overlap_codepoints ≤ hard s)
  unfolding hard_end_of
  overlap_fits s = elim (Bool-cases (hard s == length text)) [
    | inl e ↦ inl e
    | inr e ↦ let apart = ==_false (hard s) _ e in inr (omega arith)
  ]

  chosen_end_window :
      (s : State)
      → Inv text s
      → InWindow s.start (hard s) (chosen_end u chunk_hash config text name index s).0
  unfolding chosen_end
  chosen_end_window s v =
      let (open_window, _, _) = hard_end_bounds s v in
      choose_end_window u text name index s.start s.previous_end
        (s.start + config.target_overlap_codepoints) (hard s) (hard s == length text) open_window
        v.behind (overlap_fits s)

  widen_window :
      (start end hard_end : ℕ)
      → end ≤ hard_end
      → (end ≤ widen u chunk_hash config text name index start end hard_end)
        × (widen u chunk_hash config text name index start end hard_end ≤ hard_end)
  unfolding widen
  widen_window start end hard_end h =
      elim (Bool-cases (is_blank_text (slice text start end) && ltb end hard_end)) [
        | inl e ↦ rw e (h, omega arith)
        | inr e ↦ rw e (omega arith, h)
      ]

  pub round-Good :
      (s : State) → Inv text s → Good text limit s (round u chunk_hash config text name index s)
  unfolding round
  round-Good s v =
      let (end, suppress) = chosen_end u chunk_hash config text name index s in
      let (above, below) = chosen_end_window s v in
      let (_, in_text, in_limit) = hard_end_bounds s v in
      elim (Bool-cases (leb end s.previous_end)) [
        | inl e ↦ rw e (reduce_overlap-Good s v (omega (arith, leb→le end s.previous_end e)))
        | inr e ↦
            let (grown, held) = widen_window s.start end (hard s) below in
            rw e (
              yield_chunk-Good s (widen u chunk_hash config text name index s.start end (hard s))
                suppress v (omega (arith, leb_false→lt end s.previous_end e)) (omega arith)
                (omega arith))
      ]
