-- ===== src/Io/Disk/Laws.antt =====
-- What the calls of Io.Disk read and write.
use rust_base.Base.{
  ℕ, zero, suc, ◌+◌, ◌-◌, ◌≤◌, ◌≡◌, ◌⊎◌, inl, inr, refl, ap, ◌∙◌, List, [], ◌∷◌, ◌++◌, length, take,
  drop, min, arith, take-drop, length-take, length-drop, drop-length-take, drop-add, length-append,
  drop-append, take-append,
}
use rust_base.Io.Disk.{zeros, overwrite}

-- The bytes are the next ones of the content, as many as were asked for at most, and there are none
-- only if none is asked for or none is left.
pub record Next (content : List ℕ) (offset len : ℕ) (bytes : List ℕ) : Type 0 where
  pub next : bytes ++ drop (offset + length bytes) content ≡ drop offset content
  pub fits : length bytes ≤ len
  pub some_left : (length bytes ≡ 0) → (len ≡ 0) ⊎ (length content ≤ offset)

-- A part that is asked for is empty only if the list is.
take-empty :
    (len n : ℕ) (rest : List ℕ)
    → length (take (min len (suc n)) rest) ≡ 0
    → (len ≡ 0) ⊎ (length rest ≡ 0)
take-empty zero n rest e = inl refl
take-empty (suc len) n rest e = inr (omega (arith, length-take (min (suc len) (suc n)) rest))

pub read_at-Next :
    (n offset len : ℕ) (content : List ℕ)
    → Next content offset len (take (min len (suc n)) (drop offset content))
read_at-Next n offset len content = record {
  next =
      ap (λ l. take k rest ++ l) (drop-add offset _ content ∙ drop-length-take k rest)
      ∙ take-drop k rest;
  fits = omega (arith, length-take k rest);
  some_left = λ e. elim (take-empty len n rest e) [
    | inl z ↦ inl z
    | inr z ↦ inr (omega (arith, length-drop offset content))
  ];
}
  where
    k : ℕ
    k = min len (suc n)

    rest : List ℕ
    rest = drop offset content

length-zeros : (n : ℕ) → length (zeros n) ≡ n
length-zeros zero = refl
length-zeros (suc n) = ap suc (length-zeros n)

length-padded :
    (offset : ℕ) (content : List ℕ)
    → length (take offset (content ++ zeros (offset - length content))) ≡ offset
length-padded offset content =
    let padding = zeros (offset - length content) in
    omega (
      arith,
      length-take offset (content ++ padding),
      length-append content padding,
      length-zeros (offset - length content),
    )

-- What is written at an offset is there.
pub drop-overwrite :
    (offset : ℕ) (bytes content : List ℕ)
    → drop offset (overwrite offset bytes content) ≡ bytes ++ drop (offset + length bytes) content
unfolding overwrite
drop-overwrite offset [] content = ap (λ k. drop k content) (omega arith)
drop-overwrite offset (b ∷ bytes) content =
    drop-append offset _ (b ∷ bytes ++ drop (offset + length (b ∷ bytes)) content)
      (length-padded offset content)

-- The content up to the offset stays.
pub take-overwrite :
    (offset b : ℕ) (bytes content : List ℕ)
    → take offset (overwrite offset (b ∷ bytes) content)
      ≡ take offset (content ++ zeros (offset - length content))
unfolding overwrite
take-overwrite offset b bytes content =
    take-append offset _ (b ∷ bytes ++ drop (offset + length (b ∷ bytes)) content)
      (length-padded offset content)
