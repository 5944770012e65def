-- ===== src/Encrypted/Cursor.antt =====
-- `Cursor` of the crate `bytes` over an array, as lafere/src/encrypted/handshake.rs uses it.
use lafere.Base.{
  take-append-drop, drop-append_plus, ℕ, length-take, ◌+◌, ◌≤◌, ◌≡◌, refl, sym, ap, ◌∙◌, arith,
  List, ◌++◌, length, length-append, take, drop, take-append_length, drop-append_length,
}
use mathlib.Core.List.{append_assoc}

pub record Cursor : Type 0 where
  pub contents : List ℕ
  pub position : ℕ

-- What is read and written lies within the array.
pub record Cursors : Type 0 where
  pub new : List ℕ → Cursor
  pub seek : ℕ → Cursor → Cursor
  pub write : List ℕ → Cursor → Cursor
  pub read : ℕ → Cursor → List ℕ × Cursor
  pub new_lem : (bs : List ℕ) → new bs ≡ record { contents = bs; position = 0 }
  pub seek_lem :
      (pos : ℕ) (c : Cursor) → pos ≤ length c.contents → seek pos c ≡ record c { position = pos }
  pub write_lem :
      (bs : List ℕ) (c : Cursor)
      → c.position + length bs ≤ length c.contents
      → write bs c ≡ record {
        contents = take c.position c.contents ++ (bs ++ drop (c.position + length bs) c.contents);
        position = c.position + length bs;
      }
  pub read_lem :
      (n : ℕ) (c : Cursor)
      → c.position + n ≤ length c.contents
      → read n c ≡ (take n (drop c.position c.contents), record c { position = c.position + n })

-- The cursor over `before` and `after`, between the two.
abbrev pub between : List ℕ → List ℕ → Cursor
between before after = record { contents = before ++ after; position = length before }

at :
    (before bs after : List ℕ)
    → ◌≡◌ {A = Cursor}
        (record { contents = before ++ (bs ++ after); position = length before + length bs })
        (between (before ++ bs) after)
at before bs after =
    ap (λ (xs : List ℕ). record { contents = xs; position = length before + length bs })
      (sym (append_assoc before bs after))
    ∙ ap (λ (n : ℕ). record { contents = (before ++ bs) ++ after; position = n })
        (sym (length-append before bs))

module _ (K : Cursors) where
  pub write-between :
      (before old after bs : List ℕ)
      → length bs ≡ length old
      → K.write bs (between before (old ++ after)) ≡ between (before ++ bs) after
  write-between before old after bs same =
      let c = between before (old ++ after) in
      let fits : length before + length bs ≤ length (before ++ (old ++ after)) =
        omega (arith, length-append before (old ++ after), length-append old after) in
      let left : drop (length before + length bs) (before ++ (old ++ after)) ≡ after =
        drop-append_plus _ (length bs) before (old ++ after) refl
        ∙ ap (λ (n : ℕ). drop n (old ++ after)) same
        ∙ drop-append_length old after in
      K.write_lem bs c fits
      ∙ ap
          (λ (xs : List ℕ). record {
            contents = xs ++ (bs ++ drop (length before + length bs) (before ++ (old ++ after)));
            position = length before + length bs;
          })
          (take-append_length before (old ++ after))
      ∙ ap
          (λ (ys : List ℕ). record {
            contents = before ++ (bs ++ ys);
            position = length before + length bs;
          })
          left
      ∙ at before bs after

  pub read-between :
      (before bs after : List ℕ)
      → K.read (length bs) (between before (bs ++ after)) ≡ (bs, between (before ++ bs) after)
  read-between before bs after =
      let c = between before (bs ++ after) in
      let fits : length before + length bs ≤ length (before ++ (bs ++ after)) =
        omega (arith, length-append before (bs ++ after), length-append bs after) in
      let found : take (length bs) (drop (length before) (before ++ (bs ++ after))) ≡ bs =
        ap (take (length bs)) (drop-append_length before (bs ++ after))
        ∙ take-append_length bs after in
      K.read_lem (length bs) c fits
      ∙ ap
          (λ (xs : List ℕ). (
            xs,
            record { contents = before ++ (bs ++ after); position = length before + length bs },
          ))
          found
      ∙ ap (λ (d : Cursor). (bs, d)) (at before bs after)

  pub write-within :
      (before rest bs : List ℕ)
      → length bs ≤ length rest
      → K.write bs (between before rest) ≡ between (before ++ bs) (drop (length bs) rest)
  write-within before rest bs fits =
      let old : length bs ≡ length (take (length bs) rest) =
        omega (arith, length-take (length bs) rest) in
      ap (λ (r : List ℕ). K.write bs (between before r)) (sym (take-append-drop (length bs) rest))
      ∙ write-between before (take (length bs) rest) (drop (length bs) rest) bs old

  pub seek-between :
      (pos : ℕ) (c : Cursor) (before after : List ℕ)
      → c.contents ≡ before ++ after
      → pos ≡ length before
      → K.seek pos c ≡ between before after
  seek-between pos c before after same at_ =
      let fits : pos ≤ length c.contents =
        omega (arith, ap (λ (xs : List ℕ). length xs) same, length-append before after) in
      K.seek_lem pos c fits
      ∙ ap (λ (xs : List ℕ). record { contents = xs; position = pos }) same
      ∙ ap (λ (n : ℕ). record { contents = before ++ after; position = n }) at_
