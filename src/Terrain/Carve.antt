-- ===== src/Terrain/Carve.antt =====
-- The carving loops of crates/db-sim-core/src/terrain.rs, cell by cell.
use dungeon_barrage.Base.{
  ℕ, ◌≡◌, ◌≢◌, refl, ap, subst, sym, ◌∙◌, ◌⊎◌, inl, inr, Bool, ◌&&◌, List, [], ◌∷◌, if◌then◌else◌,
  arith, In, Bool-cases, ℤ, pos, negsuc, ◌==◌,
}
use dungeon_barrage.Types.Terrain.{Material, empty, is_solid, TerrainMask, MaterialMask, permits}
use dungeon_barrage.Terrain.{material_at, carve_cell, carve_row, carve_rows}
use dungeon_barrage.Terrain.Cells.{stored, material_at-set_here, material_at-set_apart}

ℤ-cases : (a b : ℤ) → (a ≡ b) ⊎ (a ≢ b)
ℤ-cases (pos a) (pos b) = elim (Bool-cases (a == b)) [
  | inl e ↦ inl (ap pos (ground (arith, e)))
  | inr n ↦ inr (λ h. ground (arith, n, h))
]
ℤ-cases (pos a) (negsuc b) = inr (λ h. cc)
ℤ-cases (negsuc a) (pos b) = inr (λ h. cc)
ℤ-cases (negsuc a) (negsuc b) = elim (Bool-cases (a == b)) [
  | inl e ↦ inl (ap negsuc (ground (arith, e)))
  | inr n ↦ inr (λ h. ground (arith, n, h))
]

-- What carving makes of a material at a cell of the shape, or outside it.
unfoldable pub carved : Bool → MaterialMask → Material → Material
carved inside m v = if inside && (is_solid v && permits m v) then empty else v

pub carved_empty : (inside : Bool) (m : MaterialMask) → carved inside m empty ≡ empty
unfolding carved
carved_empty inside m = ground arith

carved_twice :
    (inside : Bool) (m : MaterialMask) (v : Material)
    → carved inside m (carved inside m v) ≡ carved inside m v
carved_twice inside m v = elim (Bool-cases (inside && (is_solid v && permits m v))) [
  | inl h ↦
      let e : carved inside m v ≡ empty = unfold carved in rw h refl in
      ap (carved inside m) e ∙ carved_empty inside m ∙ sym e
  | inr h ↦ let e : carved inside m v ≡ v = unfold carved in rw h refl in ap (carved inside m) e
]

module _ (shape : ℤ → ℤ → Bool) (m : MaterialMask) (u v : ℤ) where
  -- The material of the cell under scrutiny.
  abbrev pub here : TerrainMask × ℕ → Material
  here r = material_at r.0 u v

  cell_here :
      (r : TerrainMask × ℕ) → here (carve_cell shape m u v r) ≡ carved (shape u v) m (here r)
  unfolding carve_cell carved
  cell_here (mask, n) =
      elim (Bool-cases
        (shape u v && (is_solid (material_at mask u v) && permits m (material_at mask u v)))) [
          | inl h ↦
              let (i, e, l) = stored mask u v (ground (arith, h)) in
              rw h (material_at-set_here mask u v empty i e l)
          | inr h ↦ rw h refl
        ]

  cell_apart :
      (x y : ℤ) (r : TerrainMask × ℕ) → (x ≢ u) ⊎ (y ≢ v) → here (carve_cell shape m x y r) ≡ here r
  unfolding carve_cell
  cell_apart x y (mask, n) d =
      elim (Bool-cases
        (shape x y && (is_solid (material_at mask x y) && permits m (material_at mask x y)))) [
          | inl h ↦
              let (i, e, l) = stored mask x y (ground (arith, h)) in
              rw h (material_at-set_apart mask x y empty i e l u v d)
          | inr h ↦ rw h refl
        ]

  -- One round leaves the cell alone or carves it.
  cell_step :
      (x y : ℤ) (r : TerrainMask × ℕ)
      → (here (carve_cell shape m x y r) ≡ here r)
        ⊎ (here (carve_cell shape m x y r) ≡ carved (shape u v) m (here r))
  cell_step x y r = elim (ℤ-cases x u) [
    | inr n ↦ inl (cell_apart x y r (inl n))
    | inl e ↦ elim (ℤ-cases y v) [
      | inr n ↦ inl (cell_apart x y r (inr n))
      | inl f ↦ inr (rw (e, f) (cell_here r))
    ]
  ]

  -- A cell that is carved stays so.
  abbrev pub Done : Material → TerrainMask × ℕ → Type 0
  Done w r = here r ≡ carved (shape u v) m w

  cell-Done :
      (w : Material) (x y : ℤ) (r : TerrainMask × ℕ) → Done w r → Done w (carve_cell shape m x y r)
  cell-Done w x y r d = elim (cell_step x y r) [
    | inl same ↦ same ∙ d
    | inr cut ↦ cut ∙ ap (carved (shape u v) m) d ∙ carved_twice (shape u v) m w
  ]

  row-Done :
      (w : Material) (y : ℤ) (xs : List ℤ) (r : TerrainMask × ℕ)
      → Done w r
      → Done w (carve_row shape m y xs r)
  unfolding carve_row
  row-Done w y [] r d = d
  row-Done w y (x ∷ xs) r d = row-Done w y xs (carve_cell shape m x y r) (cell-Done w x y r d)

  rows-Done :
      (w : Material) (xs ys : List ℤ) (r : TerrainMask × ℕ)
      → Done w r
      → Done w (carve_rows shape m xs ys r)
  unfolding carve_rows
  rows-Done w xs [] r d = d
  rows-Done w xs (y ∷ ys) r d = rows-Done w xs ys (carve_row shape m y xs r) (row-Done w y xs r d)

  -- The row of the cell carves it, and any other row leaves it alone or carves it.
  row_In : (xs : List ℤ) (r : TerrainMask × ℕ) → In u xs → Done (here r) (carve_row shape m v xs r)
  unfolding carve_row
  row_In [] r h = absurd h
  row_In (x ∷ xs) r (inl e) =
      row-Done (here r) v xs (carve_cell shape m x v r)
        (subst (λ z. Done (here r) (carve_cell shape m z v r)) e (cell_here r))
  row_In (x ∷ xs) r (inr h) = elim (cell_step x v r) [
    | inl same ↦ row_In xs (carve_cell shape m x v r) h ∙ ap (carved (shape u v) m) same
    | inr cut ↦ row-Done (here r) v xs (carve_cell shape m x v r) cut
  ]

  row_step :
      (y : ℤ) (xs : List ℤ) (r : TerrainMask × ℕ)
      → (here (carve_row shape m y xs r) ≡ here r) ⊎ Done (here r) (carve_row shape m y xs r)
  unfolding carve_row
  row_step y [] r = inl refl
  row_step y (x ∷ xs) r = elim (cell_step x y r) [
    | inr cut ↦ inr (row-Done (here r) y xs (carve_cell shape m x y r) cut)
    | inl same ↦ elim (row_step y xs (carve_cell shape m x y r)) [
      | inl kept ↦ inl (kept ∙ same)
      | inr cut ↦ inr (cut ∙ ap (carved (shape u v) m) same)
    ]
  ]

  rows_In :
      (xs ys : List ℤ) (r : TerrainMask × ℕ)
      → In u xs
      → In v ys
      → Done (here r) (carve_rows shape m xs ys r)
  unfolding carve_rows
  rows_In xs [] r h k = absurd k
  rows_In xs (y ∷ ys) r h (inl e) =
      rows-Done (here r) xs ys (carve_row shape m y xs r)
        (subst (λ z. Done (here r) (carve_row shape m z xs r)) e (row_In xs r h))
  rows_In xs (y ∷ ys) r h (inr k) = elim (row_step y xs r) [
    | inl same ↦ rows_In xs ys (carve_row shape m y xs r) h k ∙ ap (carved (shape u v) m) same
    | inr cut ↦ rows-Done (here r) xs ys (carve_row shape m y xs r) cut
  ]

  -- What the loops make of the cell, if they meet it or if there is nothing for them to carve.
  pub carve_rows_lem :
      (xs ys : List ℤ) (r : TerrainMask × ℕ)
      → (In u xs × In v ys) ⊎ (here r ≡ carved (shape u v) m (here r))
      → here (carve_rows shape m xs ys r) ≡ carved (shape u v) m (here r)
  carve_rows_lem xs ys r (inl (h, k)) = rows_In xs ys r h k
  carve_rows_lem xs ys r (inr bare) = rows-Done (here r) xs ys r bare

  pub rows_step :
      (xs ys : List ℤ) (r : TerrainMask × ℕ)
      → (here (carve_rows shape m xs ys r) ≡ here r) ⊎ Done (here r) (carve_rows shape m xs ys r)
  unfolding carve_rows
  rows_step xs [] r = inl refl
  rows_step xs (y ∷ ys) r = elim (row_step y xs r) [
    | inr cut ↦ inr (rows-Done (here r) xs ys (carve_row shape m y xs r) cut)
    | inl same ↦ elim (rows_step xs ys (carve_row shape m y xs r)) [
      | inl kept ↦ inl (kept ∙ same)
      | inr cut ↦ inr (cut ∙ ap (carved (shape u v) m) same)
    ]
  ]
