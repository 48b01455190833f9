-- ===== src/Blocks/Erosion.antt =====
-- Which columns a block keeps, in crates/db-sim-core/src/blocks.rs: as many as are solid.
use dungeon_barrage.Base.{
  ℕ, zero, suc, ◌+◌, ◌-◌, ◌<◌, ◌≤◌, ◌≡◌, ◌≢◌, refl, sym, ap, subst, ◌∙◌, inl, inr, Bool, true,
  false, not, List, [], ◌∷◌, map, filter, length, Option, All, if◌then◌else◌, arith, get_or,
  get_or-set_ne, set, replicate, Bool-cases, ltb, leb, ◌==◌, ℤ, length-map, get_or-replicate,
}
use dungeon_barrage.Types.Terrain.{TerrainBlock}
use dungeon_barrage.Blocks.{
  Ranked, ranked_before, insert_ranked, sort_ranked, numbers, mark_eroded, eroded_columns,
  surviving_columns, solid_columns, erosion_rank, absolute_column_x,
}
use dungeon_barrage.Blocks.Columns.{IsBlock, solid_columns-IsCeiling}

abbrev column : Ranked → ℕ
column c = c.2

abbrev weight : Bool → ℕ
weight b = if b then 0 else 1

-- The columns from `lo` on, `n` of them, that are not marked.
abbrev kept : List Bool → ℕ → ℕ → ℕ
kept eroded lo n = length (filter (λ local. not (get_or eroded local true)) (numbers lo n))

kept-suc :
    (e : List Bool) (lo n : ℕ) → kept e lo (suc n) ≡ weight (get_or e lo true) + kept e (suc lo) n
unfolding numbers
kept-suc e lo n = ground arith

-- A mark outside the range changes nothing, one inside it takes a column away.
kept-before : (e : List Bool) (x lo n : ℕ) → x < lo → kept (set e x true) lo n ≡ kept e lo n
unfolding numbers
kept-before e x lo zero h = refl
kept-before e x lo (suc n) h =
    let rest = kept-before e x (suc lo) n (omega (arith, h)) in
    let same = get_or-set_ne e x lo true true (λ k. omega (arith, h, k)) in
    kept-suc (set e x true) lo n ∙ rw (same, rest) (sym (kept-suc e lo n))

get_or-marked : (e : List Bool) (x : ℕ) → get_or (set e x true) x true ≡ true
get_or-marked [] x = refl
get_or-marked (b ∷ e) zero = refl
get_or-marked (b ∷ e) (suc x) = get_or-marked e x

kept-mark :
    (e : List Bool) (x lo n : ℕ)
    → lo ≤ x
    → x < lo + n
    → get_or e x true ≡ false
    → kept (set e x true) lo n + 1 ≡ kept e lo n
unfolding numbers
kept-mark e x lo zero h k f = absurd (omega (arith, h, k))
kept-mark e x lo (suc n) h k f = elim (Bool-cases (ltb lo x)) [
  | inl later ↦
      let rest = kept-mark e x (suc lo) n (ground (arith, later)) (omega (arith, k)) f in
      let same = get_or-set_ne e x lo true true (λ q. ground (arith, later, q)) in
      omega (arith, kept-suc (set e x true) lo n, kept-suc e lo n, rest, ap weight same)
  | inr here ↦
      let q : lo ≡ x = ground (arith, h, here) in
      let new : weight (get_or (set e x true) lo true) ≡ 0 = rw (q, get_or-marked e x) refl in
      let old : weight (get_or e lo true) ≡ 1 = rw (q, f) refl in
      omega (
        arith,
        kept-suc (set e x true) lo n,
        kept-suc e lo n,
        kept-before e x (suc lo) n (omega (arith, q)),
        new,
        old,
      )
]

-- Columns inside the block, each in the ranking once.
abbrev Fresh : ℕ → List Ranked → Type 0
Fresh w [] = Unit
Fresh w (c ∷ cs) = (column c < w) × All (λ d. column c ≢ column d) cs × Fresh w cs

Unmarked : List Bool → List Ranked → Type 0
Unmarked e = All (λ c. get_or e (column c) true ≡ false)

Unmarked-set :
    (e : List Bool) (x : ℕ) (cs : List Ranked)
    → All (λ d. x ≢ column d) cs
    → Unmarked e cs
    → Unmarked (set e x true) cs
unfolding Unmarked
Unmarked-set e x [] a u = tt
Unmarked-set e x (c ∷ cs) a u =
    (get_or-set_ne e x (column c) true true a.0 ∙ u.0, Unmarked-set e x cs a.1 u.1)

kept-mark_eroded :
    (n w : ℕ) (cs : List Ranked) (e : List Bool)
    → Fresh w cs
    → Unmarked e cs
    → n ≤ length cs
    → kept (mark_eroded n cs e) 0 w + n ≡ kept e 0 w
unfolding mark_eroded Unmarked
kept-mark_eroded zero w cs e f u h = omega arith
kept-mark_eroded (suc n) w [] e f u h = absurd (omega (arith, h))
kept-mark_eroded (suc n) w ((r, a, x) ∷ cs) e f u h =
    let rest =
      kept-mark_eroded n w cs (set e x true) f.2 (Unmarked-set e x cs f.1 u.1) (omega (arith, h)) in
    let one = kept-mark e x 0 w (omega arith) (omega (arith, f.0)) u.0 in omega (arith, rest, one)

insert-apart :
    (x : ℕ) (c : Ranked) (cs : List Ranked)
    → x ≢ column c
    → All (λ d. x ≢ column d) cs
    → All (λ d. x ≢ column d) (insert_ranked c cs)
unfolding insert_ranked
insert-apart x c [] h a = (h, tt)
insert-apart x c (d ∷ ds) h a = elim (Bool-cases (ranked_before d c)) [
  | inl b ↦ rw b (a.0, insert-apart x c ds h a.1)
  | inr b ↦ rw b (h, a)
]

insert-Fresh :
    (w : ℕ) (c : Ranked) (cs : List Ranked)
    → column c < w
    → All (λ d. column c ≢ column d) cs
    → Fresh w cs
    → Fresh w (insert_ranked c cs)
unfolding insert_ranked
insert-Fresh w c [] h a f = (h, tt, tt)
insert-Fresh w c (d ∷ ds) h a f = elim (Bool-cases (ranked_before d c)) [
  | inl b ↦
      rw b (f.0, insert-apart (column d) c ds (λ e. a.0 (sym e)) f.1, insert-Fresh w c ds h a.1 f.2)
  | inr b ↦ rw b (h, a, f)
]

sort-apart :
    (x : ℕ) (cs : List Ranked)
    → All (λ d. x ≢ column d) cs
    → All (λ d. x ≢ column d) (sort_ranked cs)
unfolding sort_ranked
sort-apart x [] a = tt
sort-apart x (c ∷ cs) a = insert-apart x c (sort_ranked cs) a.0 (sort-apart x cs a.1)

sort-Fresh : (w : ℕ) (cs : List Ranked) → Fresh w cs → Fresh w (sort_ranked cs)
unfolding sort_ranked
sort-Fresh w [] f = tt
sort-Fresh w (c ∷ cs) f =
    insert-Fresh w c (sort_ranked cs) f.0 (sort-apart (column c) cs f.1) (sort-Fresh w cs f.2)

length-insert_ranked :
    (c : Ranked) (cs : List Ranked) → length (insert_ranked c cs) ≡ suc (length cs)
unfolding insert_ranked
length-insert_ranked c [] = refl
length-insert_ranked c (d ∷ ds) = elim (Bool-cases (ranked_before d c)) [
  | inl b ↦ rw b (ap suc (length-insert_ranked c ds))
  | inr b ↦ rw b refl
]

length-sort_ranked : (cs : List Ranked) → length (sort_ranked cs) ≡ length cs
unfolding sort_ranked
length-sort_ranked [] = refl
length-sort_ranked (c ∷ cs) =
    omega (arith, length-insert_ranked c (sort_ranked cs), length-sort_ranked cs)

-- The ranking of the columns from `lo` on.
module _ (f : ℕ → Ranked) (own : (l : ℕ) → column (f l) ≡ l) where
  numbers-apart : (x lo n : ℕ) → x < lo → All (λ d. x ≢ column d) (map f (numbers lo n))
  unfolding numbers
  numbers-apart x lo zero h = tt
  numbers-apart x lo (suc n) h =
      (λ e. omega (arith, h, e, own lo), numbers-apart x (suc lo) n (omega (arith, h)))

  numbers-Fresh : (lo n : ℕ) → Fresh (lo + n) (map f (numbers lo n))
  unfolding numbers
  numbers-Fresh lo zero = tt
  numbers-Fresh lo (suc n) = (
    omega (arith, own lo),
    subst (λ c. All (λ d. c ≢ column d) (map f (numbers (suc lo) n))) (sym (own lo))
        (numbers-apart lo (suc lo) n (omega arith)),
    subst (λ w. Fresh w (map f (numbers (suc lo) n))) (omega arith) (numbers-Fresh (suc lo) n),
  )

length-numbers : (lo n : ℕ) → length (numbers lo n) ≡ n
unfolding numbers
length-numbers lo zero = refl
length-numbers lo (suc n) = omega (arith, length-numbers (suc lo) n)

kept-replicate-false : (w lo n : ℕ) → lo + n ≤ w → kept (replicate w false) lo n ≡ n
unfolding numbers
kept-replicate-false w lo zero h = refl
kept-replicate-false w lo (suc n) h =
    let e : weight (get_or (replicate w false) lo true) ≡ 1 =
      rw (get_or-replicate w lo false true (omega (arith, h))) refl in
    omega (
      arith,
      kept-suc (replicate w false) lo n,
      e,
      kept-replicate-false w (suc lo) n (omega (arith, h)),
    )

kept-replicate-true : (w lo n : ℕ) → lo + n ≤ w → kept (replicate w true) lo n ≡ 0
unfolding numbers
kept-replicate-true w lo zero h = refl
kept-replicate-true w lo (suc n) h =
    let e : weight (get_or (replicate w true) lo true) ≡ 0 =
      rw (get_or-replicate w lo true true (omega (arith, h))) refl in
    omega (
      arith,
      kept-suc (replicate w true) lo n,
      e,
      kept-replicate-true w (suc lo) n (omega (arith, h)),
    )

Unmarked-replicate : (w : ℕ) (cs : List Ranked) → Fresh w cs → Unmarked (replicate w false) cs
unfolding Unmarked
Unmarked-replicate w [] f = tt
Unmarked-replicate w (c ∷ cs) f =
    (get_or-replicate w (column c) false true f.0, Unmarked-replicate w cs f.2)

module _ (b : TerrainBlock) (impact : Option ℤ) where
  ranking : List Ranked
  ranking =
      map (λ local. (erosion_rank b local impact, absolute_column_x b local, local))
        (numbers 0 b.width_cells)

  ranking-Fresh : Fresh b.width_cells (sort_ranked ranking)
  unfolding ranking
  ranking-Fresh =
      sort-Fresh b.width_cells ranking
        (subst (λ w. Fresh w ranking) (omega arith) (numbers-Fresh _ (λ l. refl) 0 b.width_cells))

  length-ranking : length (sort_ranked ranking) ≡ b.width_cells
  unfolding ranking
  length-ranking =
      length-sort_ranked ranking
      ∙ length-map _ (numbers 0 b.width_cells)
      ∙ length-numbers 0 b.width_cells

  marked : ℕ → List Bool
  marked n = mark_eroded n (sort_ranked ranking) (replicate b.width_cells false)

  kept-marked : (n : ℕ) → n ≤ b.width_cells → kept (marked n) 0 b.width_cells + n ≡ b.width_cells
  unfolding marked
  kept-marked n h =
      kept-mark_eroded n b.width_cells (sort_ranked ranking) (replicate b.width_cells false)
        ranking-Fresh (Unmarked-replicate b.width_cells (sort_ranked ranking) ranking-Fresh)
        (omega (arith, h, length-ranking))
      ∙ kept-replicate-false b.width_cells 0 b.width_cells (omega arith)

  kept-eroded :
      solid_columns b ≤ b.width_cells
      → kept (eroded_columns b impact) 0 b.width_cells ≡ solid_columns b
  unfolding eroded_columns ranking marked
  kept-eroded h =
      let whole = kept-replicate-false b.width_cells 0 b.width_cells (omega arith) in
      elim (Bool-cases (b.width_cells == 0)) [
        | inl e ↦ rw e (whole ∙ ground (arith, e, h))
        | inr e ↦ elim (Bool-cases (leb b.width_cells (solid_columns b))) [
          | inl full ↦ rw (e, full) (whole ∙ ground (arith, full, h))
          | inr less ↦ elim (Bool-cases (solid_columns b == 0)) [
            | inl none' ↦
                rw (e, less, none')
                  (kept-replicate-true b.width_cells 0 b.width_cells (omega arith)
                    ∙ ground (arith, none'))
            | inr some' ↦
                rw (e, less, some')
                  (omega (arith, h, kept-marked (b.width_cells - solid_columns b) (omega arith)))
          ]
        ]
      ]

-- Wherever it was hit, a block of the game keeps exactly as many columns as are solid.
pub length-surviving_columns :
    (b : TerrainBlock) (impact : Option ℤ)
    → IsBlock b
    → length (surviving_columns b impact) ≡ solid_columns b
unfolding surviving_columns
length-surviving_columns b impact i =
    let (_, most) = solid_columns-IsCeiling b i in
    length-map (absolute_column_x b) (
      filter (λ local. not (get_or (eroded_columns b impact) local true)) (numbers 0 b.width_cells))
    ∙ kept-eroded b impact most
