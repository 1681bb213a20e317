-- ===== src/Ring/Slices.antt =====
-- Facts on `take`, `drop` and `set`, and the last `n` elements of a list.
use trello_openclaw_webhook.Prelude.{
  ℕ, zero, suc, ◌-◌, ◌≤◌, ◌<◌, ◌≡◌, refl, ap, List, [], ◌∷◌, ◌++◌, arith, length, set, take, drop,
  length-append, length-drop, sym, ◌∙◌, append_assoc,
}
use native.Mathlib.Decide.{dec_le}

module _ {ℓ} {A : Type ℓ} where
  pub set-eq-append :
      (xs : List A) (i : ℕ) (v : A) → i < length xs → set xs i v ≡ take i xs ++ v ∷ drop (suc i) xs
  set-eq-append [] i v h = elim h [ ]
  set-eq-append (x ∷ xs) zero v h = refl
  set-eq-append (x ∷ xs) (suc i) v h = ap (λ l. x ∷ l) (set-eq-append xs i v (omega arith))

  pub drop-set : (xs : List A) (i : ℕ) (v : A) → drop (suc i) (set xs i v) ≡ drop (suc i) xs
  drop-set [] i v = refl
  drop-set (x ∷ xs) zero v = refl
  drop-set (x ∷ xs) (suc i) v = drop-set xs i v

  pub take-set :
      (xs : List A) (i : ℕ) (v : A)
      → i < length xs
      → take (suc i) (set xs i v) ≡ take i xs ++ v ∷ []
  take-set [] i v h = elim h [ ]
  take-set (x ∷ xs) zero v h = refl
  take-set (x ∷ xs) (suc i) v h = ap (λ l. x ∷ l) (take-set xs i v (omega arith))

  pub drop_all : (n : ℕ) (xs : List A) → length xs ≤ n → drop n xs ≡ []
  drop_all zero [] h = refl
  drop_all zero (x ∷ xs) h = elim h [ ]
  drop_all (suc n) [] h = refl
  drop_all (suc n) (x ∷ xs) h = drop_all n xs (omega arith)

  pub drop-one-drop : (n : ℕ) (xs : List A) → drop 1 (drop n xs) ≡ drop (suc n) xs
  drop-one-drop zero xs = refl
  drop-one-drop (suc n) [] = refl
  drop-one-drop (suc n) (x ∷ xs) = drop-one-drop n xs

  pub drop-append_of_le :
      (n : ℕ) (xs ys : List A) → n ≤ length xs → drop n (xs ++ ys) ≡ drop n xs ++ ys
  drop-append_of_le zero xs ys h = refl
  drop-append_of_le (suc n) [] ys h = elim h [ ]
  drop-append_of_le (suc n) (x ∷ xs) ys h = drop-append_of_le n xs ys (omega arith)

  pub drop_eq : (xs : List A) (i j : ℕ) → i ≡ j → drop i xs ≡ drop j xs
  drop_eq xs i j h = ap (λ k. drop k xs) h

  -- The last `n` elements.
  abbrev pub last : ℕ → List A → List A
  last n xs = drop (length xs - n) xs

  pub last_of_le : (n : ℕ) (xs : List A) → length xs ≤ n → last n xs ≡ xs
  last_of_le n xs h = drop_eq xs _ 0 (omega arith)

  pub length-last : (n : ℕ) (xs : List A) → length (last n xs) ≤ n
  length-last n xs = omega (arith, length-drop (length xs - n) xs)

  -- Only the last `n` matter for the last `n` after one more element.
  pub last-append :
      (n : ℕ) (xs : List A) (e : A) → last n (last n xs ++ e ∷ []) ≡ last n (xs ++ e ∷ [])
  last-append n xs e = elim (dec_le (length xs) n) [
    | yes h ↦ ap (λ l. last n (l ++ e ∷ [])) (last_of_le n xs h)
    | no h ↦
        let m : ℕ = length xs - n in
        let kept : drop m xs ++ e ∷ [] ≡ drop m (xs ++ e ∷ []) =
          sym (drop-append_of_le m xs (e ∷ []) (omega arith)) in
        let one : length (drop m xs ++ e ∷ []) - n ≡ 1 =
          omega (arith, length-append (drop m xs) (e ∷ []), length-drop m xs) in
        let rest : suc m ≡ length (xs ++ e ∷ []) - n = omega (arith, length-append xs (e ∷ [])) in
        drop_eq (drop m xs ++ e ∷ []) _ 1 one
        ∙ ap (λ l. drop 1 l) kept
        ∙ drop-one-drop m (xs ++ e ∷ [])
        ∙ drop_eq (xs ++ e ∷ []) _ _ rest
  ]

  -- Dropping the oldest element of a rotated list that has one more behind.
  pub drop-one-rotated :
      (xs : List A) (h : ℕ) (e : A)
      → h < length xs
      → drop 1 ((drop h xs ++ take h xs) ++ e ∷ []) ≡ drop (suc h) xs ++ (take h xs ++ e ∷ [])
  drop-one-rotated xs h e lt =
      ap (λ l. drop 1 l) (append_assoc (drop h xs) (take h xs) (e ∷ []))
      ∙ drop-append_of_le 1 (drop h xs) (take h xs ++ e ∷ []) (omega (arith, length-drop h xs))
      ∙ ap (λ l. l ++ (take h xs ++ e ∷ [])) (drop-one-drop h xs)

  -- Writing at `h` and rotating by `h + 1` is the same.
  pub rotate-set :
      (xs : List A) (h : ℕ) (e : A)
      → h < length xs
      → drop (suc h) (set xs h e) ++ take (suc h) (set xs h e)
        ≡ drop (suc h) xs ++ (take h xs ++ e ∷ [])
  rotate-set xs h e lt =
      ap (λ l. l ++ take (suc h) (set xs h e)) (drop-set xs h e)
      ∙ ap (λ l. drop (suc h) xs ++ l) (take-set xs h e lt)

  -- So is writing at the last index and not rotating.
  pub rotate-set_last :
      (xs : List A) (h : ℕ) (e : A)
      → suc h ≡ length xs
      → set xs h e ≡ drop (suc h) xs ++ (take h xs ++ e ∷ [])
  rotate-set_last xs h e full =
      let past : drop (suc h) xs ≡ [] = drop_all (suc h) xs (omega arith) in
      set-eq-append xs h e (omega arith)
      ∙ ap (λ l. take h xs ++ e ∷ l) past
      ∙ ap (λ l. l ++ (take h xs ++ e ∷ [])) (sym past)
