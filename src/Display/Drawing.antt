-- ===== src/Display/Drawing.antt =====
-- What the drawing of src/apps/displaymgr.cpp changes.
use rp4_demo.Base.{
  ℕ, zero, suc, ◌+◌, ◌%◌, ◌≤◌, ◌<◌, ◌≡◌, ◌≢◌, refl, ◌∙◌, true, false, ◌||◌, leb, ◌==◌, arith,
  Bool-cases, inl, inr,
}
use rp4_demo.Display.{Screen, Words, offset, put_pixel, fill_row, fill_rows, u32}

module _ (s : Screen) (color : ℕ) where
  -- The screen is there.
  abbrev There : Type 0
  There = s.fb ≢ 0

  put-kept :
      (x y k : ℕ) (m : Words)
      → (x < s.width → y < s.height → offset s x y ≢ k)
      → put_pixel s x y color m k ≡ m k
  unfolding put_pixel
  put-kept x y k m other = elim (Bool-cases (s.fb == 0 || (leb s.width x || leb s.height y))) [
    | inl hidden ↦ rw hidden refl
    | inr shown ↦
        let differs : k == offset s x y ≡ false =
          ground (arith, shown, other (ground (arith, shown)) (ground (arith, shown))) in
        rw (shown, differs) refl
  ]

  put-stays : (x y k : ℕ) (m : Words) → m k ≡ color → put_pixel s x y color m k ≡ color
  unfolding put_pixel
  put-stays x y k m painted = elim (Bool-cases (s.fb == 0 || (leb s.width x || leb s.height y))) [
    | inl hidden ↦ rw hidden painted
    | inr shown ↦ elim (Bool-cases (k == offset s x y)) [
      | inl same ↦ rw (shown, same) refl
      | inr differs ↦ rw (shown, differs) painted
    ]
  ]

  put-hit :
      (x y : ℕ) (m : Words)
      → There
      → x < s.width
      → y < s.height
      → put_pixel s x y color m (offset s x y) ≡ color
  unfolding put_pixel
  put-hit x y m there a b =
      let shown : s.fb == 0 || (leb s.width x || leb s.height y) ≡ false =
        ground (arith, there, a, b) in
      let same : offset s x y == offset s x y ≡ true = ground arith in rw (shown, same) refl

  row-kept :
      (x y n dx k : ℕ) (m : Words)
      → x + dx + n ≤ u32
      → ((i : ℕ) → dx ≤ i → i < dx + n → x + i < s.width → y < s.height → offset s (x + i) y ≢ k)
      → fill_row s x y color n dx m k ≡ m k
  unfolding fill_row
  row-kept x y zero dx k m room other = refl
  row-kept x y (suc n) dx k m room other =
      let plain : (x + dx) % u32 ≡ x + dx = omega (arith, room) in
      rw plain (
        row-kept x y n (dx + 1) k (put_pixel s (x + dx) y color m) (omega (arith, room))
          (λ i a b. other i (omega arith) (omega arith))
        ∙ put-kept (x + dx) y k m (other dx (omega arith) (omega arith)))

  row-stays : (x y n dx k : ℕ) (m : Words) → m k ≡ color → fill_row s x y color n dx m k ≡ color
  unfolding fill_row
  row-stays x y zero dx k m painted = painted
  row-stays x y (suc n) dx k m painted =
      row-stays x y n (dx + 1) k (put_pixel s ((x + dx) % u32) y color m)
        (put-stays ((x + dx) % u32) y k m painted)

  row-hit :
      (x y n dx i : ℕ) (m : Words)
      → There
      → x + dx + n ≤ u32
      → dx ≤ i
      → i < dx + n
      → x + i < s.width
      → y < s.height
      → fill_row s x y color n dx m (offset s (x + i) y) ≡ color
  unfolding fill_row
  row-hit x y zero dx i m there room a b px py = absurd (omega arith)
  row-hit x y (suc n) dx i m there room a b px py =
      let plain : (x + dx) % u32 ≡ x + dx = omega (arith, room) in
      elim (Bool-cases (dx == i)) [
        | inl here ↦
            let e : dx ≡ i = ground (arith, here) in
            rw (plain, e)
              (row-stays x y n (i + 1) (offset s (x + i) y) (put_pixel s (x + i) y color m)
                (put-hit (x + i) y m there px py))
        | inr later ↦
            row-hit x y n (dx + 1) i (put_pixel s ((x + dx) % u32) y color m) there
              (omega (arith, room)) (ground (arith, later, a)) (omega arith) px py
      ]

  pub rows-kept :
      (x y w n dy k : ℕ) (m : Words)
      → x + w ≤ u32
      → y + dy + n ≤ u32
      → ((i j : ℕ)
          → i < w
          → dy ≤ j
          → j < dy + n
          → x + i < s.width
          → y + j < s.height
          → offset s (x + i) (y + j) ≢ k)
      → fill_rows s x y w color n dy m k ≡ m k
  unfolding fill_rows
  rows-kept x y w zero dy k m wide room other = refl
  rows-kept x y w (suc n) dy k m wide room other =
      let plain : (y + dy) % u32 ≡ y + dy = omega (arith, room) in
      rw plain (
        rows-kept x y w n (dy + 1) k (fill_row s x (y + dy) color w 0 m) wide (omega (arith, room))
          (λ i j a b c. other i j a (omega arith) (omega arith))
        ∙ row-kept x (y + dy) w 0 k m (omega arith)
            (λ i a b. other i dy (omega arith) (omega arith) (omega arith)))

  rows-stays :
      (x y w n dy k : ℕ) (m : Words) → m k ≡ color → fill_rows s x y w color n dy m k ≡ color
  unfolding fill_rows
  rows-stays x y w zero dy k m painted = painted
  rows-stays x y w (suc n) dy k m painted =
      rows-stays x y w n (dy + 1) k (fill_row s x ((y + dy) % u32) color w 0 m)
        (row-stays x ((y + dy) % u32) w 0 k m painted)

  pub rows-hit :
      (x y w n dy i j : ℕ) (m : Words)
      → There
      → x + w ≤ u32
      → y + dy + n ≤ u32
      → i < w
      → dy ≤ j
      → j < dy + n
      → x + i < s.width
      → y + j < s.height
      → fill_rows s x y w color n dy m (offset s (x + i) (y + j)) ≡ color
  unfolding fill_rows
  rows-hit x y w zero dy i j m there wide room inside a b px py = absurd (omega arith)
  rows-hit x y w (suc n) dy i j m there wide room inside a b px py =
      let plain : (y + dy) % u32 ≡ y + dy = omega (arith, room) in
      elim (Bool-cases (dy == j)) [
        | inl here ↦
            let e : dy ≡ j = ground (arith, here) in
            rw (plain, e)
              (rows-stays x y w n (j + 1) (offset s (x + i) (y + j))
                (fill_row s x (y + j) color w 0 m)
                (row-hit x (y + j) w 0 i m there (omega arith) (omega arith) (omega arith) px py))
        | inr later ↦
            rows-hit x y w n (dy + 1) i j (fill_row s x ((y + dy) % u32) color w 0 m) there wide
              (omega (arith, room)) inside (ground (arith, later, a)) (omega arith) px py
      ]
